-- ===== src/Tcpao/Mac/Stable.antt =====
-- The names that `normalize_mac_alg` of src/tcpao/linux.rs gives, and trimming.
use mathlib.Core.Path.{subst}
use rust_tcpao_proxy.Base.{
  ℕ, ◌≡◌, refl, sym, ap, ◌∙◌, inl, inr, true, false, ◌&&◌, [], ◌∷◌, Text, codes, ok, is_empty,
  is_whitespace, trim_start, trim_end, keep_end, trim, to_ascii_lowercase, Bool-cases, if-err,
  ok-eq,
}
use rust_tcpao_proxy.Tcpao.Mac.{
  one_of, sha1_names, sha256_names, cmac_names, map_alg, normalize_mac_alg,
}

keep_end-kept : (c : ℕ) (s : Text) → (is_whitespace c && is_empty s) ≡ false → keep_end c s ≡ c ∷ s
unfolding keep_end
keep_end-kept c s h = rw h refl

keep_end-dropped : (c : ℕ) (s : Text) → (is_whitespace c && is_empty s) ≡ true → keep_end c s ≡ []
unfolding keep_end
keep_end-dropped c s h = rw h refl

trim_end-step : (c : ℕ) (s : Text) → trim_end (c ∷ s) ≡ keep_end c (trim_end s)
unfolding trim_end
trim_end-step c s = refl

trim_end-nil : trim_end [] ≡ []
unfolding trim_end
trim_end-nil = refl

keep_end_idem : (c : ℕ) (s : Text) → trim_end s ≡ s → trim_end (keep_end c s) ≡ keep_end c s
keep_end_idem c s h = elim (Bool-cases (is_whitespace c && is_empty s)) [
  | inl drop_it ↦ rw (keep_end-dropped c s drop_it) trim_end-nil
  | inr keep_it ↦ ap trim_end (keep_end-kept c s keep_it) ∙ trim_end-step c s ∙ ap (keep_end c) h
]

trim_end_idem : (s : Text) → trim_end (trim_end s) ≡ trim_end s
trim_end_idem [] = ap trim_end trim_end-nil
trim_end_idem (c ∷ s) =
    ap trim_end (trim_end-step c s)
    ∙ keep_end_idem c (trim_end s) (trim_end_idem s)
    ∙ sym (trim_end-step c s)

-- The text does not start with white space.
unfoldable Starts : Text → Type 0
Starts [] = Unit
Starts (c ∷ s) = is_whitespace c ≡ false

trim_start-Starts : (s : Text) → Starts (trim_start s)
unfolding Starts trim_start
trim_start-Starts [] = tt
trim_start-Starts (c ∷ s) = elim (Bool-cases (is_whitespace c)) [
  | inl white ↦ rw white (trim_start-Starts s)
  | inr black ↦ rw black black
]

trim_start-same : (s : Text) → Starts s → trim_start s ≡ s
unfolding Starts trim_start
trim_start-same [] h = refl
trim_start-same (c ∷ s) h = rw h refl

trim_end-Starts : (s : Text) → Starts s → Starts (trim_end s)
unfolding Starts trim_end keep_end
trim_end-Starts [] h = tt
trim_end-Starts (c ∷ s) h = rw h h

trim_idem : (s : Text) → trim (trim s) ≡ trim s
unfolding trim
trim_idem s =
    ap trim_end (trim_start-same _ (trim_end-Starts _ (trim_start-Starts s)))
    ∙ trim_end_idem (trim_start s)

-- A name that `map_alg` gives stands for itself.
IsStable : Text × ℕ → Type 0
IsStable p = normalize_mac_alg p.0 ≡ ok p

sha1-IsStable : IsStable (codes "hmac(sha1)", 12)
unfolding IsStable normalize_mac_alg
sha1-IsStable = refl

sha256-IsStable : IsStable (codes "hmac(sha256)", 16)
unfolding IsStable normalize_mac_alg
sha256-IsStable = refl

cmac-IsStable : IsStable (codes "cmac(aes)", 12)
unfolding IsStable normalize_mac_alg
cmac-IsStable = refl

other-IsStable :
    (s : Text)
    → is_empty s ≡ false
    → trim s ≡ s
    → map_alg s (to_ascii_lowercase s) ≡ (s, 12)
    → IsStable (s, 12)
unfolding IsStable normalize_mac_alg
other-IsStable s full trimmed other = rw (trimmed, full, other) refl

map_alg-IsStable :
    (s : Text) → is_empty s ≡ false → trim s ≡ s → IsStable (map_alg s (to_ascii_lowercase s))
unfolding map_alg
map_alg-IsStable s full trimmed =
    let lower = to_ascii_lowercase s in
    elim (Bool-cases (one_of lower sha1_names)) [
      | inl h ↦ rw h sha1-IsStable
      | inr n₁ ↦ elim (Bool-cases (one_of lower sha256_names)) [
        | inl h ↦ rw (n₁, h) sha256-IsStable
        | inr n₂ ↦ elim (Bool-cases (one_of lower cmac_names)) [
          | inl h ↦ rw (n₁, n₂, h) cmac-IsStable
          | inr n₃ ↦ rw (n₁, n₂, n₃) (other-IsStable s full trimmed (rw (n₁, n₂, n₃) refl))
        ]
      ]
    ]

normalize_mac_alg-ok :
    (value : Text) {p : Text × ℕ}
    → normalize_mac_alg value ≡ ok p
    → (is_empty (trim value) ≡ false) × (map_alg (trim value) (to_ascii_lowercase (trim value)) ≡ p)
unfolding normalize_mac_alg
normalize_mac_alg-ok value h =
    let (full, mapped) = if-err (is_empty (trim value)) _ _ h in (full, ok-eq mapped)

-- The name that `normalize_mac_alg` gives is a name it accepts and maps to itself, with the same
-- length of the tag.
pub normalize_mac_alg-stable :
    (value name : Text) (maclen : ℕ)
    → normalize_mac_alg value ≡ ok (name, maclen)
    → normalize_mac_alg name ≡ ok (name, maclen)
unfolding IsStable
normalize_mac_alg-stable value name maclen h =
    let (full, mapped) = normalize_mac_alg-ok value h in
    subst IsStable mapped (map_alg-IsStable (trim value) full (trim_idem value))
