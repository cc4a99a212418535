-- ===== src/Policy/Unique.antt =====
-- The iterators of src/tcpao/policy.rs on policies with distinct peers.
use mathlib.Core.Path.{subst}
use rust_tcpao_proxy.Base.{
  ◌≡◌, refl, sym, ap, ◌∙◌, ◌≢◌, inl, inr, Bool, true, false, some, List, [], ◌∷◌, All, Distinct,
  is_empty, Bool-cases, Option-cases, some-eq,
}
use rust_tcpao_proxy.Config.{AoPolicyConfig, tuple_of}
use rust_tcpao_proxy.Policy.{find, keep, sole}
use rust_tcpao_proxy.Policy.Select.{IsIn, find-some, find-none}

All-IsIn :
    (P : AoPolicyConfig → Type 0) (ps : List AoPolicyConfig) (p : AoPolicyConfig)
    → All P ps
    → IsIn p ps
    → P p
All-IsIn P [] p h m = absurd m
All-IsIn P (q ∷ ps) p (h, _) (inl e) = subst P e h
All-IsIn P (q ∷ ps) p (_, h) (inr m) = All-IsIn P ps p h m

-- Policies with the same peer are the same.
pub same_peer :
    (ps : List AoPolicyConfig) (p q : AoPolicyConfig)
    → Distinct tuple_of ps
    → IsIn p ps
    → IsIn q ps
    → tuple_of p ≡ tuple_of q
    → p ≡ q
same_peer [] p q d m n t = absurd m
same_peer (r ∷ ps) p q d (inl e) (inl f) t = sym e ∙ f
same_peer (r ∷ ps) p q (d, _) (inl e) (inr m) t =
    absurd (All-IsIn (λ x. tuple_of x ≢ tuple_of r) ps q d m (sym t ∙ ap tuple_of (sym e)))
same_peer (r ∷ ps) p q (d, _) (inr m) (inl f) t =
    absurd (All-IsIn (λ x. tuple_of x ≢ tuple_of r) ps p d m (t ∙ ap tuple_of (sym f)))
same_peer (r ∷ ps) p q (_, d) (inr m) (inr n) t = same_peer ps p q d m n t

module _ (f : AoPolicyConfig → Bool) where
  pub keep-empty :
      (ps : List AoPolicyConfig) → ((q : AoPolicyConfig) → IsIn q ps → f q ≡ false) → keep f ps ≡ []
  unfolding keep
  keep-empty [] h = refl
  keep-empty (q ∷ ps) h = rw (h q (inl refl)) (keep-empty ps (λ r m. h r (inr m)))

  -- A policy that passes alone is all that is kept.
  pub keep-only :
      (ps : List AoPolicyConfig) (p : AoPolicyConfig)
      → Distinct tuple_of ps
      → IsIn p ps
      → f p ≡ true
      → ((q : AoPolicyConfig) → IsIn q ps → f q ≡ true → q ≡ p)
      → keep f ps ≡ p ∷ []
  unfolding keep
  keep-only [] p d m t only = absurd m
  keep-only (q ∷ ps) p (d, _) (inl e) t only =
      let others : keep f ps ≡ [] = keep-empty ps (λ r m. elim (Bool-cases (f r)) [
        | inr fails ↦ fails
        | inl passes ↦ absurd (
            All-IsIn (λ x. tuple_of x ≢ tuple_of q) ps r d m
              (ap tuple_of (only r (inr m) passes ∙ sym e)))
      ]) in
      rw (e, t, others) refl
  keep-only (q ∷ ps) p (d, d') (inr m) t only = elim (Bool-cases (f q)) [
    | inr fails ↦ rw fails (keep-only ps p d' m t (λ r n. only r (inr n)))
    | inl passes ↦ absurd (
        All-IsIn (λ x. tuple_of x ≢ tuple_of q) ps p d m
          (ap tuple_of (sym (only q (inl refl) passes))))
  ]

  pub kept :
      (ps : List AoPolicyConfig) (p : AoPolicyConfig) → IsIn p ps → f p ≡ true → IsIn p (keep f ps)
  unfolding keep
  kept [] p m t = absurd m
  kept (q ∷ ps) p (inl e) t = let same : f q ≡ true = ap f e ∙ t in rw same (inl e)
  kept (q ∷ ps) p (inr m) t = elim (Bool-cases (f q)) [
    | inl passes ↦ rw passes (inr (kept ps p m t))
    | inr fails ↦ rw fails (kept ps p m t)
  ]

  pub find-only :
      (ps : List AoPolicyConfig) (p : AoPolicyConfig)
      → IsIn p ps
      → f p ≡ true
      → ((q : AoPolicyConfig) → IsIn q ps → f q ≡ true → q ≡ p)
      → find f ps ≡ some p
  find-only ps p m t only = elim (Option-cases (find f ps)) [
    | inl e ↦ let fails = find-none f ps e m in absurd cc
    | inr (q, e) ↦ let (n, passes) = find-some f ps e in e ∙ ap some (only q n passes)
  ]

pub sole-only : (l : List AoPolicyConfig) (p : AoPolicyConfig) → sole l ≡ some p → l ≡ p ∷ []
unfolding sole is_empty
sole-only [] p h = absurd cc
sole-only (q ∷ []) p h = ap (λ x. x ∷ []) (some-eq h)
sole-only (q ∷ r ∷ l) p h = absurd cc
