-- ===== src/Forward/Awaits/Writes.antt =====
-- The loop of `pump` by its awaits, against the loop by whole rounds: the writes.
use mathlib.Core.Path.{subst}
use mathlib.Core.List.{append-nil, append_assoc}
use rust_tcpao_proxy.Base.{
  ℕ, zero, suc, ◌≡◌, refl, sym, ap, ◌∙◌, none, some, List, [], ◌∷◌, ◌++◌, Result, ok, err, length,
  take, drop, take-append, take-append-drop,
}
use rust_tcpao_proxy.Error.{IoError}
use rust_tcpao_proxy.Forward.{
  PumpOptions, PumpState, Arrival, source_read, destination_read, all, partly, pump_step,
}
use rust_tcpao_proxy.Forward.Awaits.{
  returned, wrote_destination, wrote_source, take_destination, take_source,
}
use rust_tcpao_proxy.Forward.Awaits.Stands.{
  Halfway, given_destination, given_source, Reads, Reads-source, Reads-destination, Rounds, Stands,
  round,
}

-- A part more of the chunk was written.
more :
    (chunk rest : List ℕ) (before s : PumpState) (given : PumpState → List ℕ → PumpState) (n : ℕ)
    → ((a b : List ℕ) → given (given before a) b ≡ given before (a ++ b))
    → Halfway chunk rest before s given
    → Halfway chunk (drop n rest) before (given s (take n rest)) given
more chunk rest before s given n adds k = record {
  written = k.written ++ take n rest;
  joins =
      append_assoc k.written (take n rest) (drop n rest)
      ∙ ap (λ l. k.written ++ l) (take-append-drop n rest)
      ∙ k.joins;
  first = k.first;
  others = k.others;
  nonempty = k.nonempty;
  gave = ap (λ x. given x (take n rest)) k.gave ∙ adds k.written (take n rest);
}

module _ (started : ℕ) (opts : PumpOptions) where
  -- What the destination takes, up to the end of the chunk or an error.
  module _ (made : List Arrival) (before : PumpState) (old other chunk rest : List ℕ)
      (s : PumpState) (h : Rounds started opts made none before) (reads : Reads made old other)
      (k : Halfway chunk rest before s given_destination) where
    wrote_destination_all-Stands :
        (now : ℕ)
        → rest ≡ []
        → Stands started opts (old ++ chunk) other (wrote_destination started opts s chunk [] now)
    unfolding wrote_destination pump_step
    wrote_destination_all-Stands now e =
        let whole : k.written ≡ chunk =
          sym (append-nil k.written) ∙ ap (λ l. k.written ++ l) (sym e) ∙ k.joins in
        let a = source_read (ok (k.first ∷ k.others)) all now in
        (
          made ++ a ∷ [],
          (
            rw (k.gave, whole, k.nonempty) (round started opts made a before h),
            subst (λ c. Reads (made ++ a ∷ []) (old ++ c) other) (sym k.nonempty)
                (Reads-source made a refl reads),
          ),
        )

    failed_destination-Stands :
        (e : IoError) (now : ℕ)
        → Stands started opts (old ++ chunk) other (record { point = returned (err e); state = s })
    unfolding pump_step
    failed_destination-Stands e now =
        let a = source_read (ok (k.first ∷ k.others)) (partly (length k.written) e) now in
        let part : take (length k.written) (k.first ∷ k.others) ≡ k.written =
          ap (take (length k.written)) (sym (k.joins ∙ k.nonempty))
          ∙ take-append k.written rest (length k.written) refl in
        (
          made ++ a ∷ [],
          (
            round started opts made a before h
                ∙ ap
                    (λ l.
                      (some (err e), record before { to_destination = before.to_destination ++ l }))
                    part
                ∙ ap (λ x. (some (err e), x)) (sym k.gave),
            subst (λ c. Reads (made ++ a ∷ []) (old ++ c) other) (sym k.nonempty)
                (Reads-source made a refl reads),
          ),
        )

  -- What the source takes, up to the end of the chunk or an error.
  module _ (made : List Arrival) (before : PumpState) (old other chunk rest : List ℕ)
      (s : PumpState) (h : Rounds started opts made none before) (reads : Reads made other old)
      (k : Halfway chunk rest before s given_source) where
    wrote_source_all-Stands :
        (now : ℕ)
        → rest ≡ []
        → Stands started opts other (old ++ chunk) (wrote_source started opts s chunk [] now)
    unfolding wrote_source pump_step
    wrote_source_all-Stands now e =
        let whole : k.written ≡ chunk =
          sym (append-nil k.written) ∙ ap (λ l. k.written ++ l) (sym e) ∙ k.joins in
        let a = destination_read (ok (k.first ∷ k.others)) all now in
        (
          made ++ a ∷ [],
          (
            rw (k.gave, whole, k.nonempty) (round started opts made a before h),
            subst (λ c. Reads (made ++ a ∷ []) other (old ++ c)) (sym k.nonempty)
                (Reads-destination made a refl reads),
          ),
        )

    failed_source-Stands :
        (e : IoError) (now : ℕ)
        → Stands started opts other (old ++ chunk) (record { point = returned (err e); state = s })
    unfolding pump_step
    failed_source-Stands e now =
        let a = destination_read (ok (k.first ∷ k.others)) (partly (length k.written) e) now in
        let part : take (length k.written) (k.first ∷ k.others) ≡ k.written =
          ap (take (length k.written)) (sym (k.joins ∙ k.nonempty))
          ∙ take-append k.written rest (length k.written) refl in
        (
          made ++ a ∷ [],
          (
            round started opts made a before h
                ∙ ap (λ l. (some (err e), record before { to_source = before.to_source ++ l })) part
                ∙ ap (λ x. (some (err e), x)) (sym k.gave),
            subst (λ c. Reads (made ++ a ∷ []) other (old ++ c)) (sym k.nonempty)
                (Reads-destination made a refl reads),
          ),
        )

  wrote_destination-Stands :
      (made : List Arrival) (before : PumpState) (old other chunk rest : List ℕ) (s : PumpState)
      (now : ℕ)
      → Rounds started opts made none before
      → Reads made old other
      → Halfway chunk rest before s given_destination
      → Stands started opts (old ++ chunk) other (wrote_destination started opts s chunk rest now)
  unfolding wrote_destination
  wrote_destination-Stands made before old other chunk [] s now h reads k =
      wrote_destination_all-Stands made before old other chunk [] s h reads k now refl
  wrote_destination-Stands made before old other chunk (b ∷ rest) s now h reads k =
      (made, (before, old, h, reads, refl, k))

  pub take_destination-Stands :
      (made : List Arrival) (before : PumpState) (old other chunk rest : List ℕ) (s : PumpState)
      (r : Result IoError ℕ) (now : ℕ)
      → Rounds started opts made none before
      → Reads made old other
      → Halfway chunk rest before s given_destination
      → Stands started opts (old ++ chunk) other (take_destination started opts s chunk rest r now)
  unfolding take_destination
  take_destination-Stands made before old other chunk rest s (err e) now h reads k =
      failed_destination-Stands made before old other chunk rest s h reads k e now
  take_destination-Stands made before old other chunk rest s (ok zero) now h reads k =
      (made, (before, old, h, reads, refl, k))
  take_destination-Stands made before old other chunk rest s (ok (suc n)) now h reads k =
      wrote_destination-Stands made before old other chunk (drop (suc n) rest)
        (given_destination s (take (suc n) rest)) now h reads
        (more chunk rest before s given_destination (suc n)
          (λ a b.
            ap (λ l. record before { to_destination = l }) (append_assoc before.to_destination a b))
          k)

  wrote_source-Stands :
      (made : List Arrival) (before : PumpState) (old other chunk rest : List ℕ) (s : PumpState)
      (now : ℕ)
      → Rounds started opts made none before
      → Reads made other old
      → Halfway chunk rest before s given_source
      → Stands started opts other (old ++ chunk) (wrote_source started opts s chunk rest now)
  unfolding wrote_source
  wrote_source-Stands made before old other chunk [] s now h reads k =
      wrote_source_all-Stands made before old other chunk [] s h reads k now refl
  wrote_source-Stands made before old other chunk (b ∷ rest) s now h reads k =
      (made, (before, old, h, reads, refl, k))

  pub take_source-Stands :
      (made : List Arrival) (before : PumpState) (old other chunk rest : List ℕ) (s : PumpState)
      (r : Result IoError ℕ) (now : ℕ)
      → Rounds started opts made none before
      → Reads made other old
      → Halfway chunk rest before s given_source
      → Stands started opts other (old ++ chunk) (take_source started opts s chunk rest r now)
  unfolding take_source
  take_source-Stands made before old other chunk rest s (err e) now h reads k =
      failed_source-Stands made before old other chunk rest s h reads k e now
  take_source-Stands made before old other chunk rest s (ok zero) now h reads k =
      (made, (before, old, h, reads, refl, k))
  take_source-Stands made before old other chunk rest s (ok (suc n)) now h reads k =
      wrote_source-Stands made before old other chunk (drop (suc n) rest)
        (given_source s (take (suc n) rest)) now h reads
        (more chunk rest before s given_source (suc n)
          (λ a b. ap (λ l. record before { to_source = l }) (append_assoc before.to_source a b)) k)
