-- ===== src/Tunnel/Hop.antt =====
-- One direction of one call of `pump` in src/forward.rs, seen from outside: what it has read, what it
-- has passed on, what it is about to, and whether it is still at it.
use mathlib.Core.List.{append-nil, append_assoc}
use rust_tcpao_proxy.Base.{
  ℕ, ◌≡◌, ◌≢◌, refl, sym, ap, ◌∙◌, Bool, true, false, List, [], ◌++◌, Result, ok, err, take, drop,
  take-append-drop, IsPrefix,
}
use rust_tcpao_proxy.Error.{IoError}
use rust_tcpao_proxy.Forward.{PumpStats, CloseReason, source_eof, destination_eof, idle_timeout}
use rust_tcpao_proxy.Tunnel.{Writer}

-- A hop is drained when it has read to the end; else it stops with a result, or it fails.
pub data Status : Type 0 where
  going drained stopped failed : Status

pub record Hop : Type 0 where
  pub read : List ℕ
  pub taken : List ℕ
  pub pending : List ℕ
  pub status : Status

abbrev pub over : Status → Bool
over going = false
over drained = true
over stopped = true
over failed = true

abbrev pub output : Hop → Writer
output h = record { written = h.taken; closed = over h.status }

-- The result of `pump`, for the direction whose end has the reason `why`.
abbrev pub reached : CloseReason → CloseReason → Status
reached source_eof source_eof = drained
reached source_eof destination_eof = stopped
reached source_eof idle_timeout = stopped
reached destination_eof source_eof = stopped
reached destination_eof destination_eof = drained
reached destination_eof idle_timeout = stopped
reached idle_timeout why = stopped

abbrev pub status_of : CloseReason → Result IoError PumpStats → Status
status_of why (ok st) = reached why st.reason
status_of why (err e) = failed

-- One wake-up: nothing for this direction, a chunk read, a part of it passed on, or the end.
pub data HopStep (w : Writer) (h : Hop) (h' : Hop) : Type 0 where
  waits : h' ≡ h → HopStep w h h'
  reads_in :
      (bs : List ℕ)
      → h.status ≡ going
      → h.pending ≡ []
      → IsPrefix (h.read ++ bs) w.written
      → h' ≡ record h { read = h.read ++ bs; pending = bs }
      → HopStep w h h'
  passes :
      (n : ℕ)
      → h.status ≡ going
      → h' ≡ record h { taken = h.taken ++ take n h.pending; pending = drop n h.pending }
      → HopStep w h h'
  drains :
      h.status ≡ going
      → h.pending ≡ []
      → w.closed ≡ true
      → h.read ≡ w.written
      → h' ≡ record h { status = drained }
      → HopStep w h h'
  stops : h.status ≡ going → h' ≡ record h { status = stopped } → HopStep w h h'
  breaks : h.status ≡ going → h' ≡ record h { pending = []; status = failed } → HopStep w h h'

-- What holds between wake-ups.
pub record IsHop (w : Writer) (h : Hop) : Type 0 where
  pub reads : IsPrefix h.read w.written
  pub passes_on : IsPrefix h.taken h.read
  pub whole : h.status ≢ failed → h.taken ++ h.pending ≡ h.read
  pub all_read : h.status ≡ drained → (h.pending ≡ []) × (w.closed ≡ true) × (h.read ≡ w.written)

-- The writer wrote more, unless it is closed, or was closed.
pub record Grows (w w' : Writer) : Type 0 where
  pub more : IsPrefix w.written w'.written
  pub final : w.closed ≡ true → (w'.closed ≡ true) × (w'.written ≡ w.written)

pub IsPrefix-refl : (xs : List ℕ) → IsPrefix xs xs
IsPrefix-refl xs = ([], append-nil xs)

pub IsPrefix-trans : (xs ys zs : List ℕ) → IsPrefix xs ys → IsPrefix ys zs → IsPrefix xs zs
IsPrefix-trans xs ys zs (a, e) (b, f) =
    (a ++ b, sym (append_assoc xs a b) ∙ (ap (λ l. l ++ b) e ∙ f))

IsPrefix-more : (xs ys : List ℕ) → IsPrefix xs (xs ++ ys)
IsPrefix-more xs ys = (ys, refl)

pub IsHop-Grows : {w w' : Writer} {h : Hop} → IsHop w h → Grows w w' → IsHop w' h
IsHop-Grows {w} {w'} {h} k g = record {
  reads = IsPrefix-trans h.read w.written w'.written k.reads g.more;
  passes_on = k.passes_on;
  whole = k.whole;
  all_read = λ d. let (n, c, e) = k.all_read d in let (c', e') = g.final c in (n, c', e ∙ sym e');
}

going-whole : {w : Writer} {h : Hop} → IsHop w h → h.status ≡ going → h.taken ++ h.pending ≡ h.read
going-whole k g = k.whole (λ f. cc)

nothing_left : (h : Hop) → h.pending ≡ [] → h.taken ++ h.pending ≡ h.read → h.taken ≡ h.read
nothing_left h n e = sym (append-nil h.taken) ∙ ap (λ l. h.taken ++ l) (sym n) ∙ e

-- A drained hop has passed on all that was written.
pub drained-taken :
    {w : Writer} {h : Hop}
    → IsHop w h
    → h.status ≡ drained
    → (w.closed ≡ true) × (h.taken ≡ w.written)
drained-taken {w} {h} k d =
    let (n, closed, all) = k.all_read d in (closed, nothing_left h n (k.whole (λ f. cc)) ∙ all)

pub HopStep-IsHop : {w : Writer} {h h' : Hop} → HopStep w h h' → IsHop w h → IsHop w h'
HopStep-IsHop (waits e) k = rw e k
HopStep-IsHop {w} {h} (reads_in bs g n p e) k =
    let same : h.taken ++ bs ≡ h.read ++ bs =
      ap (λ l. l ++ bs) (nothing_left h n (going-whole k g)) in
    rw e
      (record { reads = p; passes_on = (bs, same); whole = λ _. same; all_read = λ d. absurd cc })
HopStep-IsHop {w} {h} (passes n g e) k =
    let same : (h.taken ++ take n h.pending) ++ drop n h.pending ≡ h.read =
      append_assoc h.taken (take n h.pending) (drop n h.pending)
      ∙ ap (λ l. h.taken ++ l) (take-append-drop n h.pending)
      ∙ going-whole k g in
    rw e (record {
      reads = k.reads;
      passes_on = (drop n h.pending, same);
      whole = λ _. same;
      all_read = λ d. absurd cc;
    })
HopStep-IsHop (drains g n c r e) k = rw e (record {
  reads = k.reads;
  passes_on = k.passes_on;
  whole = λ _. going-whole k g;
  all_read = λ _. (n, c, r);
})
HopStep-IsHop (stops g e) k = rw e (record {
  reads = k.reads;
  passes_on = k.passes_on;
  whole = λ _. going-whole k g;
  all_read = λ d. absurd cc;
})
HopStep-IsHop (breaks g e) k = rw e (record {
  reads = k.reads;
  passes_on = k.passes_on;
  whole = λ f. absurd (f refl);
  all_read = λ d. absurd cc;
})

-- What a hop gives to the next one grows, and is final once the hop is over.
pub HopStep-Grows : {w : Writer} {h h' : Hop} → HopStep w h h' → Grows (output h) (output h')
HopStep-Grows (waits e) = rw e (record { more = IsPrefix-refl _; final = λ c. (c, refl) })
HopStep-Grows (reads_in bs g n p e) =
    rw (e, g) (record { more = IsPrefix-refl _; final = λ c. absurd cc })
HopStep-Grows (passes n g e) =
    rw (e, g) (record { more = IsPrefix-more _ _; final = λ c. absurd cc })
HopStep-Grows (drains g n c r e) =
    rw (e, g) (record { more = IsPrefix-refl _; final = λ c. absurd cc })
HopStep-Grows (stops g e) = rw (e, g) (record { more = IsPrefix-refl _; final = λ c. absurd cc })
HopStep-Grows (breaks g e) = rw (e, g) (record { more = IsPrefix-refl _; final = λ c. absurd cc })
