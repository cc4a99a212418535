-- ===== src/Config/Source.antt =====
-- `KeySource` of src/config.rs: which texts name a source, and which key a source gives.
use rust_tcpao_proxy.Base.{
  All, Result, err, ℕ, ◌≡◌, refl, sym, ap, ◌∙◌, ◌↔◌, ◌≢◌, none, some, List, [], ◌∷◌, ◌++◌, arith,
  Text, String, codes, ok, strip_prefix, is_empty, as_bytes, Option-cases, Result-cases, inl, inr,
}
use rust_tcpao_proxy.Error.{io_error, ProxyError}
use rust_tcpao_proxy.Os.{Os, Event, resume, Trace, getenv, fs_read, from_io, lift}
use rust_tcpao_proxy.Os.Quiet.{
  Quiet, Quiet-lift, Quiet-bind, Quiet-map, Quiet-getenv, Quiet-fs_read,
}
use rust_tcpao_proxy.Config.Types.{KeySource, KeySourceKind, file, env}
use rust_tcpao_proxy.Config.Keys.{kind_of, nonempty_key, env_key, load_kind, load_key_bytes}

strip_prefix_iff : (s p : Text) {v : Text} → (strip_prefix s p ≡ some v) ↔ (s ≡ p ++ v)
unfolding strip_prefix
strip_prefix_iff s [] = ground arith
strip_prefix_iff [] (p ∷ ps) = ground arith
strip_prefix_iff (c ∷ s) (p ∷ ps) {v} = ground (arith, strip_prefix_iff s ps {v = v})

-- The text of a source: its prefix, and a name that is not empty.
abbrev pub Names : KeySourceKind → Text → Type 0
Names (file v) s = (s ≡ codes "file:" ++ v) × (v ≢ [])
Names (env v) s = (s ≡ codes "env:" ++ v) × (v ≢ [])

-- The prefixes differ in their first character, so no text has both.
no_both : (s : Text) {v : Text} → s ≡ codes "env:" ++ v → strip_prefix s (codes "file:") ≡ none
unfolding strip_prefix
no_both s e = rw e refl

-- A key source has the kind that its text names, and a text without a known prefix or with nothing
-- behind it has no kind.
pub kind_of_iff : (k : KeySource) (r : KeySourceKind) → (kind_of k ≡ ok r) ↔ Names r k.source
unfolding kind_of is_empty
kind_of_iff k (file v) = (
  λ h. elim (Option-cases (strip_prefix k.source (codes "file:"))) [
    | inr (w, e) ↦ ground (arith, (strip_prefix_iff k.source (codes "file:") {v = w}).0 e)
    | inl e ↦ elim (Option-cases (strip_prefix k.source (codes "env:"))) [
      | inr (w, e') ↦ ground arith
      | inl e' ↦ ground arith
    ]
  ],
  λ n. rw ((strip_prefix_iff k.source (codes "file:") {v = v}).1 n.0) (ground arith),
)
kind_of_iff k (env v) = (
  λ h. elim (Option-cases (strip_prefix k.source (codes "file:"))) [
    | inr (w, e) ↦ ground arith
    | inl e ↦ elim (Option-cases (strip_prefix k.source (codes "env:"))) [
      | inr (w, e') ↦ ground (arith, (strip_prefix_iff k.source (codes "env:") {v = w}).0 e')
      | inl e' ↦ ground arith
    ]
  ],
  λ n.
      rw (no_both k.source n.0, (strip_prefix_iff k.source (codes "env:") {v = v}).1 n.0)
        (ground arith),
)

none-some : {s : Text} → none ≡ some s → ⊥
none-some h = cc

module _ (sys : Os) (t : Trace) where
  -- What the system holds for a source: the file's bytes, or the bytes of the variable's text.
  abbrev pub Stored : KeySourceKind → List ℕ → Type 0
  Stored (file path) key = sys.read_file t path ≡ ok key
  Stored (env name) key = (s : Text) × (sys.env_var t name ≡ some s) × (key ≡ as_bytes s)

  nonempty_key_iff :
      (why : String) (raw key : List ℕ)
      → (nonempty_key why raw ≡ ok key) ↔ ((raw ≡ key) × (key ≢ []))
  unfolding nonempty_key is_empty
  nonempty_key_iff why [] key = ground arith
  nonempty_key_iff why (b ∷ raw) key = ground arith

  load_kind_iff :
      (r : KeySourceKind) (key : List ℕ)
      → ((load_kind sys r t).0 ≡ ok key) ↔ (Stored r key × (key ≢ []))
  unfolding load_kind
  load_kind_iff (file path) key = elim (Result-cases (sys.read_file t path)) [
    | inl (raw, e) ↦ ground (arith, nonempty_key_iff "key file is empty" raw key)
    | inr (n, e) ↦ ground arith
  ]
  load_kind_iff (env name) key = elim (Option-cases (sys.env_var t name)) [
    | inr (raw, e) ↦
        let (to, from) = nonempty_key_iff "env key value is empty" (as_bytes raw) key in
        (
          λ h. let (a, b) = to (ground arith) in ((raw, e, sym a), b),
          λ h.
              let (s, e', f) = h.0 in
              let same : raw ≡ s = ground arith in
              let got = from (ap as_bytes same ∙ sym f, h.1) in ground arith,
        )
    | inl e ↦ (λ h. ground arith, λ h. absurd (none-some (sym e ∙ h.0.1)))
  ]

-- A key loads exactly when its source has a known kind, the system holds the bytes of that source,
-- and these are not empty; and it is those bytes.
pub load_key_bytes_iff :
    (sys : Os) (t : Trace) (k : KeySource) (key : List ℕ)
    → ((load_key_bytes sys k t).0 ≡ ok key)
      ↔ ((r : KeySourceKind) × Names r k.source × Stored sys t r key × (key ≢ []))
unfolding load_key_bytes
load_key_bytes_iff sys t k key = (
  λ h. elim (Result-cases (kind_of k)) [
    | inl (r, e) ↦
        let (a, b) = (load_kind_iff sys t r key).0 (rw (e, load_key_bytes) at h) in
        (r, (kind_of_iff k r).0 e, a, b)
    | inr (n, e) ↦ ground arith
  ],
  λ (r, n, a, b). rw ((kind_of_iff k r).1 n, load_key_bytes) ((load_kind_iff sys t r key).1 (a, b)),
)

module _ (sys : Os) where
  Quiet-load_kind : (r : KeySourceKind) → Quiet (load_kind sys r)
  unfolding load_kind
  Quiet-load_kind (file path) =
      Quiet-bind (from_io (fs_read sys path)) _
        (Quiet-map io_error (fs_read sys path) (Quiet-fs_read sys path))
        (λ raw. Quiet-lift (nonempty_key "key file is empty" raw))
  Quiet-load_kind (env name) =
      Quiet-bind (getenv sys name) _ (Quiet-getenv sys name) (λ v. Quiet-lift (env_key name v))

  -- Loading a key opens no connection.
  pub Quiet-load_key_bytes : (k : KeySource) → Quiet (load_key_bytes sys k)
  unfolding load_key_bytes
  Quiet-load_key_bytes k = Quiet-bind (lift (kind_of k)) _ (Quiet-lift (kind_of k)) Quiet-load_kind

-- The calls that read a key source.
abbrev pub IsRead : Event → Type 0
IsRead (Event.read_file path) = Unit
IsRead (Event.env_var name) = Unit
IsRead _ = ⊥

lift_same :
    {E A B : Type 0} (f : A → Result E B) (r : Result E A) (t : Trace)
    → (resume (λ a. lift (f a)) (r, t)).1 ≡ t
lift_same f (ok a) t = refl
lift_same f (err e) t = refl

-- Loading a key only reads.
pub load_key_bytes-reads :
    (sys : Os) (k : KeySource) (t : Trace)
    → (reads : Trace) × All IsRead reads × ((load_key_bytes sys k t).1 ≡ reads ++ t)
unfolding load_key_bytes
load_key_bytes-reads sys k t = go (kind_of k)
  where
    kind_reads :
        (r : KeySourceKind)
        → (reads : Trace) × All IsRead reads × ((load_kind sys r t).1 ≡ reads ++ t)
    kind_reads (file path) = (
      Event.read_file path ∷ [],
      (tt, tt),
      lift_same (nonempty_key "key file is empty") (from_io (fs_read sys path) t).0
          (from_io (fs_read sys path) t).1,
    )
    kind_reads (env name) = (Event.env_var name ∷ [], (tt, tt), refl)

    go :
        (r : Result ProxyError KeySourceKind)
        → (reads : Trace) × All IsRead reads × ((resume (load_kind sys) (r, t)).1 ≡ reads ++ t)
    go (err e) = ([], tt, refl)
    go (ok r) = kind_reads r
