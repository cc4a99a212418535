-- ===== src/Process/Numbers.antt =====
-- `CONN_ID` of src/mode_initiator.rs and src/mode_terminator.rs: the numbers of the tasks.
use mathlib.Core.Path.{subst}
use rust_tcpao_proxy.Base.{
  ℕ, zero, suc, ◌%◌, ◌^◌, ◌<◌, ◌≤◌, ◌≡◌, refl, sym, ap, ◌∙◌, ◌≢◌, Bool, List, [], ◌∷◌, ◌++◌, map,
  All, Distinct, length, arith,
}
use rust_tcpao_proxy.Os.{Os}
use rust_tcpao_proxy.Connection.{fetch_add}
use rust_tcpao_proxy.Process.{
  Stages, advance, Running, Process, start, moved, Step, accept, fail, run, Reach, here, next,
}

abbrev number : Running → ℕ
number r = r.task.conn_id

-- The numbers of so many tasks, the newest first, from 1 on.
abbrev pub countdown : ℕ → List ℕ
countdown zero = []
countdown (suc n) = suc n % 2 ^ 64 ∷ countdown n

-- The tasks are numbered in the order in which they were spawned, modulo 2 ^ 64.
pub record IsNumbered (c : Process) : Type 0 where
  pub numbers : map number c.running ≡ countdown (length c.running)
  pub counter : c.next_id ≡ suc (length c.running) % 2 ^ 64

same_numbers :
    (before after : List Running) (r q : Running)
    → number q ≡ number r
    → map number (before ++ q ∷ after) ≡ map number (before ++ r ∷ after)
same_numbers [] after r q e = ap (λ n. n ∷ map number after) e
same_numbers (b ∷ before) after r q e = ap (λ l. number b ∷ l) (same_numbers before after r q e)

same_length :
    (before after : List Running) (r q : Running)
    → length (before ++ q ∷ after) ≡ length (before ++ r ∷ after)
same_length [] after r q = refl
same_length (b ∷ before) after r q = ap suc (same_length before after r q)

module _ (debug : Bool) (st : Os → Stages) where
  Step-IsNumbered : {c d : Process} → Step debug st c d → IsNumbered c → IsNumbered d
  Step-IsNumbered {c} (accept stream peer sys open_ built e) k = rw e (record {
    numbers =
        ap (λ n. n ∷ map number c.running) k.counter
        ∙ ap (λ l. suc (length c.running) % 2 ^ 64 ∷ l) k.numbers;
    counter = ap fetch_add k.counter ∙ omega arith;
  })
  Step-IsNumbered (fail x open_ e) k = rw e (record { numbers = k.numbers; counter = k.counter })
  Step-IsNumbered {c} (run before after r i open_ is e) k =
      let q = moved r (advance r.oracle (st r.oracle) r.task r.stage i r.calls) in
      let len : length (before ++ q ∷ after) ≡ length c.running =
        same_length before after r q ∙ ap length (sym is) in
      rw e (record {
        numbers =
            same_numbers before after r q refl
            ∙ ap (map number) (sym is)
            ∙ k.numbers
            ∙ ap countdown (sym len);
        counter = k.counter ∙ ap (λ n. suc n % 2 ^ 64) (sym len);
      })

  Reach-IsNumbered : {c : Process} → Reach debug st start c → IsNumbered c
  Reach-IsNumbered here = record { numbers = refl; counter = omega arith }
  Reach-IsNumbered (next r s) = Step-IsNumbered s (Reach-IsNumbered r)

countdown-below :
    (n top : ℕ) → n ≤ top → top < 2 ^ 64 → All (λ k. k ≢ suc top % 2 ^ 64) (countdown n)
countdown-below zero top h few = tt
countdown-below (suc n) top h few = (λ e. omega arith, countdown-below n top (omega arith) few)

countdown-Distinct : (n : ℕ) → n ≤ 2 ^ 64 → Distinct (λ k. k) (countdown n)
countdown-Distinct zero h = tt
countdown-Distinct (suc n) h =
    (countdown-below n n (omega arith) (omega arith), countdown-Distinct n (omega arith))

All-number :
    (P : ℕ → Type 0) (rs : List Running) → All P (map number rs) → All (λ r. P (number r)) rs
All-number P [] h = tt
All-number P (r ∷ rs) (p, h) = (p, All-number P rs h)

Distinct-number : (rs : List Running) → Distinct (λ k. k) (map number rs) → Distinct number rs
Distinct-number [] h = tt
Distinct-number (r ∷ rs) (p, h) = (All-number (λ k. k ≢ number r) rs p, Distinct-number rs h)

-- However the process runs, its tasks, in the order in which they were spawned, have the numbers from
-- 1 on modulo 2 ^ 64, and `CONN_ID` holds the next one; so as long as there have been at most 2 ^ 64
-- tasks, no two of them have the same number.
pub Reach-numbers :
    (debug : Bool) (st : Os → Stages) (c : Process)
    → Reach debug st start c
    → IsNumbered c × (length c.running ≤ 2 ^ 64 → Distinct (λ r. r.task.conn_id) c.running)
Reach-numbers debug st c r =
    let k = Reach-IsNumbered debug st r in
    (
      k,
      λ few.
          Distinct-number c.running
            (subst (Distinct (λ n. n)) (sym k.numbers) (countdown-Distinct (length c.running) few)),
    )
