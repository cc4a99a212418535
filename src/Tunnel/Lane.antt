-- ===== src/Tunnel/Lane.antt =====
-- One direction of both proxies: a writer and two hops, the second reading what the first passes on.
use rust_tcpao_proxy.Base.{ℕ, ◌≡◌, refl, ◌∙◌, true, false, List, IsPrefix}
use rust_tcpao_proxy.Tunnel.{Writer, write, close}
use rust_tcpao_proxy.Tunnel.Hop.{
  drained, Hop, output, HopStep, IsHop, Grows, IsPrefix-refl, IsPrefix-trans, IsHop-Grows,
  HopStep-IsHop, HopStep-Grows, drained-taken,
}

pub record Lane : Type 0 where
  pub writer : Writer
  pub first : Hop
  pub second : Hop

pub data LaneStep (l m : Lane) : Type 0 where
  rests : m ≡ l → LaneStep l m
  writes :
      (bs : List ℕ)
      → l.writer.closed ≡ false
      → m ≡ record l { writer = write l.writer bs }
      → LaneStep l m
  closes : m ≡ record l { writer = close l.writer } → LaneStep l m
  first_runs : (h : Hop) → HopStep l.writer l.first h → m ≡ record l { first = h } → LaneStep l m
  second_runs :
      (h : Hop) → HopStep (output l.first) l.second h → m ≡ record l { second = h } → LaneStep l m

pub record IsLane (l : Lane) : Type 0 where
  pub at_first : IsHop l.writer l.first
  pub at_second : IsHop (output l.first) l.second

write-Grows : (w : Writer) (bs : List ℕ) → w.closed ≡ false → Grows w (write w bs)
write-Grows w bs e = record { more = (bs, refl); final = λ c. absurd cc }

close-Grows : (w : Writer) → Grows w (close w)
close-Grows w = record { more = IsPrefix-refl w.written; final = λ c. (refl, refl) }

pub LaneStep-IsLane : {l m : Lane} → LaneStep l m → IsLane l → IsLane m
LaneStep-IsLane (rests e) k = rw e k
LaneStep-IsLane {l} (writes bs o e) k = rw e (record {
  at_first = IsHop-Grows k.at_first (write-Grows l.writer bs o);
  at_second = k.at_second;
})
LaneStep-IsLane {l} (closes e) k =
    rw e
      (record { at_first = IsHop-Grows k.at_first (close-Grows l.writer); at_second = k.at_second })
LaneStep-IsLane {l} (first_runs h s e) k = rw e (record {
  at_first = HopStep-IsHop s k.at_first;
  at_second = IsHop-Grows k.at_second (HopStep-Grows s);
})
LaneStep-IsLane {l} (second_runs h s e) k =
    rw e (record { at_first = k.at_first; at_second = HopStep-IsHop s k.at_second })

-- What was written out at the far end was written, in order and from the first byte on.
pub IsLane-prefix : (l : Lane) → IsLane l → IsPrefix l.second.taken l.writer.written
IsLane-prefix l k =
    IsPrefix-trans l.second.taken l.second.read l.writer.written k.at_second.passes_on (
      IsPrefix-trans l.second.read l.first.taken l.writer.written k.at_second.reads (
        IsPrefix-trans l.first.taken l.first.read l.writer.written k.at_first.passes_on
          k.at_first.reads))

pub IsLane-first :
    (l : Lane)
    → IsLane l
    → l.first.status ≡ drained
    → (l.writer.closed ≡ true) × (l.first.taken ≡ l.writer.written)
IsLane-first l k d = drained-taken k.at_first d

-- Once both hops are drained, the writer is closed and all that it wrote was written out at the far end.
pub IsLane-complete :
    (l : Lane)
    → IsLane l
    → l.first.status ≡ drained
    → l.second.status ≡ drained
    → (l.writer.closed ≡ true) × (l.second.taken ≡ l.writer.written)
IsLane-complete l k d e =
    let (closed, passed) = IsLane-first l k d in
    let (_, rest) = drained-taken k.at_second e in (closed, rest ∙ passed)
