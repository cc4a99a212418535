-- ===== src/Tunnel/Pipe.antt =====
-- What two proxies in a row are to be, in one direction: a pipe that writes out at its far end what was
-- written to it, in order, each byte once, and which is complete only when all was written out.
use rust_tcpao_proxy.Base.{
  ℕ, ◌≡◌, refl, ap, Bool, true, false, ◌&&◌, List, [], ◌++◌, take, IsPrefix,
}
use rust_tcpao_proxy.Tunnel.Hop.{
  Status, going, drained, stopped, failed, Hop, output, HopStep, waits, passes, reads_in, drains,
  stops, breaks,
}
use rust_tcpao_proxy.Tunnel.Lane.{
  Lane, LaneStep, rests, writes, closes, first_runs, second_runs, IsLane, LaneStep-IsLane,
  IsLane-prefix, IsLane-complete,
}

pub record Pipe : Type 0 where
  pub sent : List ℕ
  pub ended : Bool
  pub written_out : List ℕ
  pub complete : Bool

abbrev pub empty : Pipe
empty = record { sent = []; ended = false; written_out = []; complete = false }

pub data PipeStep (p q : Pipe) : Type 0 where
  stays : q ≡ p → PipeStep p q
  sends : (bs : List ℕ) → p.ended ≡ false → q ≡ record p { sent = p.sent ++ bs } → PipeStep p q
  ends : q ≡ record p { ended = true } → PipeStep p q
  writes_out :
      (bs : List ℕ)
      → p.complete ≡ false
      → IsPrefix (p.written_out ++ bs) p.sent
      → q ≡ record p { written_out = p.written_out ++ bs }
      → PipeStep p q
  completes :
      p.ended ≡ true → p.written_out ≡ p.sent → q ≡ record p { complete = true } → PipeStep p q

pub data PipeReach (p : Pipe) : Pipe → Type 0 where
  here : PipeReach p p
  next : {q r : Pipe} → PipeReach p q → PipeStep q r → PipeReach p r

-- Of a lane, the pipe keeps the two ends only.
abbrev is_drained : Status → Bool
is_drained going = false
is_drained drained = true
is_drained stopped = false
is_drained failed = false

abbrev pub pipe : Lane → Pipe
pipe l = record {
  sent = l.writer.written;
  ended = l.writer.closed;
  written_out = l.second.taken;
  complete = is_drained l.first.status && is_drained l.second.status;
}

-- The second hop is not drained while the first is at work.
first_going : (l : Lane) → IsLane l → l.first.status ≡ going → is_drained l.second.status ≡ false
first_going l k g = go l.second.status refl
  where
    go : (s : Status) → l.second.status ≡ s → is_drained s ≡ false
    go going e = refl
    go drained e = let (_, c, _) = k.at_second.all_read e in absurd cc
    go stopped e = refl
    go failed e = refl

and_false : (b : Bool) → b && false ≡ false
and_false true = refl
and_false false = refl

first_runs-PipeStep :
    (l : Lane) (h : Hop)
    → IsLane l
    → HopStep l.writer l.first h
    → PipeStep (pipe l) (pipe (record l { first = h }))
first_runs-PipeStep l h k (waits e) = stays (rw e refl)
first_runs-PipeStep l h k (reads_in bs g n p e) = stays (rw (e, first_going l k g, and_false) refl)
first_runs-PipeStep l h k (passes n g e) = stays (rw (e, first_going l k g, and_false) refl)
first_runs-PipeStep l h k (drains g n c r e) = stays (rw (e, first_going l k g, and_false) refl)
first_runs-PipeStep l h k (stops g e) = stays (rw (e, first_going l k g, and_false) refl)
first_runs-PipeStep l h k (breaks g e) = stays (rw (e, first_going l k g, and_false) refl)

second_runs-PipeStep :
    (l : Lane) (h : Hop)
    → IsLane l
    → HopStep (output l.first) l.second h
    → IsLane (record l { second = h })
    → PipeStep (pipe l) (pipe (record l { second = h }))
second_runs-PipeStep l h k (waits e) k' = stays (rw e refl)
second_runs-PipeStep l h k (reads_in bs g n p e) k' = stays (rw (e, g, and_false) refl)
second_runs-PipeStep l h k (passes n g e) k' =
    writes_out (take n l.second.pending) (rw (g, and_false) refl)
      (rw e at (IsLane-prefix (record l { second = h }) k')) (rw (e, g, and_false) refl)
second_runs-PipeStep l h k (drains g n c r e) k' = go l.first.status refl
  where
    go : (s : Status) → l.first.status ≡ s → PipeStep (pipe l) (pipe (record l { second = h }))
    go going f = absurd cc
    go drained f =
        let (closed, all) = IsLane-complete (record l { second = h }) k' f (rw e refl) in
        completes closed (rw e at all) (rw (e, f) refl)
    go stopped f = stays (rw (e, f) refl)
    go failed f = stays (rw (e, f) refl)
second_runs-PipeStep l h k (stops g e) k' = stays (rw (e, g, and_false) refl)
second_runs-PipeStep l h k (breaks g e) k' = stays (rw (e, g, and_false) refl)

pub LaneStep-PipeStep : {l m : Lane} → LaneStep l m → IsLane l → PipeStep (pipe l) (pipe m)
LaneStep-PipeStep (rests e) k = stays (ap pipe e)
LaneStep-PipeStep (writes bs o e) k = sends bs o (ap pipe e)
LaneStep-PipeStep (closes e) k = ends (ap pipe e)
LaneStep-PipeStep {l} (first_runs h s e) k = rw e (first_runs-PipeStep l h k s)
LaneStep-PipeStep {l} (second_runs h s e) k =
    rw e (second_runs-PipeStep l h k s (LaneStep-IsLane (second_runs h s refl) k))
