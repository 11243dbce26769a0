-- ===== src/Observer/Windows.antt =====
-- What the byte matching of the observer finds.
use frost_substrate.Prelude.{
  Option-cases, >>=-eq-ok, ℕ, ◌≡◌, ◌≢◌, refl, sym, ap, ◌∙◌, ◌↔◌, inl, inr, true, some, [], ◌∷◌,
  ◌++◌, Bytes, bytes_eq, bytes_eq_iff, bytes_eq_refl, length, length-append, take, drop,
  take-append, take-append-drop, leb, arith, ok, err, panic, Bool-cases,
}
use frost_substrate.Observer.{WatchTarget}
use frost_substrate.Observer.Matching.{windows, any_eq, has_window, generic_event_match}

-- The bytes of `name` stand somewhere in a row in `bytes`.
abbrev pub Occurs : Bytes → Bytes → Type 0
Occurs name bytes = (before : Bytes) × (behind : Bytes) × (bytes ≡ before ++ (name ++ behind))

any_eq-Occurs :
    (name : Bytes) (bytes : Bytes)
    → any_eq name (windows (length name) bytes) ≡ true
    → Occurs name bytes
unfolding any_eq windows
any_eq-Occurs name [] h = cc
any_eq-Occurs name (b ∷ bytes) h =
    let all : Bytes = b ∷ bytes in
    elim (Bool-cases (leb (length name) (length all))) [
      | inr short ↦ cc (rw (short, any_eq) at h)
      | inl fits ↦ elim (Bool-cases (bytes_eq (take (length name) all) name)) [
        | inl here ↦ (
          [],
          drop (length name) all,
          sym (take-append-drop (length name) all)
              ∙ ap (λ c. c ++ drop (length name) all) ((bytes_eq_iff _ name).0 here),
        )
        | inr not_here ↦
            let (before, behind, e) = any_eq-Occurs name bytes (rw (fits, any_eq, not_here) at h) in
            (b ∷ before, behind, ap (◌∷◌ b) e)
      ]
    ]

Occurs-any_eq :
    (b : ℕ) (name before behind : Bytes)
    → any_eq (b ∷ name) (windows (length (b ∷ name)) (before ++ (b ∷ name ++ behind))) ≡ true
unfolding any_eq windows
Occurs-any_eq b name [] behind =
    let fits : leb (length (b ∷ name)) (length (b ∷ name ++ behind)) ≡ true =
      ground (arith, length-append name behind) in
    rw (fits, take-append name behind, bytes_eq_refl name) (ground arith)
Occurs-any_eq b name (c ∷ before) behind =
    let found = Occurs-any_eq b name before behind in
    let fits : leb (length (b ∷ name)) (length (c ∷ before ++ (b ∷ name ++ behind))) ≡ true =
      ground (arith, length-append before (b ∷ name ++ behind), length-append name behind) in
    rw fits (ground (arith, found))

-- A window search over a name that is not empty finds the name exactly when its bytes stand somewhere in
-- a row; over an empty name it panics.
pub has_window_iff :
    {E : Type 0} (name bytes : Bytes)
    → ((has_window {E = E} name bytes ≡ ok true) ↔ ((name ≢ []) × Occurs name bytes))
      × ((has_window {E = E} name bytes ≡ err panic) ↔ (name ≡ []))
unfolding has_window
has_window_iff [] bytes = ((λ h. cc, λ h. absurd (h.0 refl)), (λ h. refl, λ h. refl))
has_window_iff (b ∷ name) bytes = (
  (
    λ h. (λ e. cc, any_eq-Occurs (b ∷ name) bytes (cc)),
    λ (i : (b ∷ name ≢ []) × Occurs (b ∷ name) bytes).
        let (before, behind, e) = i.1 in rw e (ap ok (Occurs-any_eq b name before behind)),
  ),
  (λ h. cc, λ h. cc),
)

-- The event holds the names of the target, and its message hash if the target has one.
pub record Matches (bytes : Bytes) (target : WatchTarget) : Type 0 where
  pub module_occurs : Occurs target.module_name bytes
  pub function_occurs : Occurs target.function_name bytes
  pub hash_occurs : (h : Bytes) → target.message_hash ≡ some h → Occurs h bytes

-- A target over which no search panics.
pub record IsSearchable (target : WatchTarget) : Type 0 where
  pub module_named : target.module_name ≢ []
  pub function_named : target.function_name ≢ []
  pub hash_filled : target.message_hash ≢ some []

module _ {C Event : Type 0} (encode : Event → Bytes) (event : Event) (target : WatchTarget) where
  generic_event_match-Matches :
      generic_event_match {C = C} encode event target ≡ ok true → Matches (encode event) target
  unfolding generic_event_match
  generic_event_match-Matches e =
      let bytes = encode event in
      let (m, module_found, e1) = >>=-eq-ok (has_window target.module_name bytes) _ e in
      let (f, function_found, e2) = >>=-eq-ok (has_window target.function_name bytes) _ e1 in
      elim (Bool-cases m) [
        | inr no_module ↦ cc (rw no_module at e2)
        | inl a_module ↦
            let e3 = rw a_module at e2 in
            elim (Bool-cases f) [
              | inr no_function ↦ cc (rw no_function at e3)
              | inl a_function ↦
                  let e4 = rw a_function at e3 in
                  record {
                    module_occurs =
                        ((has_window_iff target.module_name bytes).0.0
                          (rw a_module at module_found)).1;
                    function_occurs =
                        ((has_window_iff target.function_name bytes).0.0
                          (rw a_function at function_found)).1;
                    hash_occurs = λ h filled. ((has_window_iff h bytes).0.0 (rw filled at e4)).1;
                  }
            ]
      ]

  Matches-generic_event_match :
      IsSearchable target
      → Matches (encode event) target
      → generic_event_match {C = C} encode event target ≡ ok true
  unfolding generic_event_match
  Matches-generic_event_match s i =
      rw
        (
          (has_window_iff target.module_name (encode event)).0.1 (s.module_named, i.module_occurs),
          (has_window_iff target.function_name (encode event)).0.1
              (s.function_named, i.function_occurs),
        )
        (elim (Option-cases target.message_hash) [
          | inl bare ↦ rw bare
          | inr (h, filled) ↦ rw (
            filled,
            (has_window_iff h (encode event)).0.1
                (λ e. s.hash_filled (filled ∙ ap some e), i.hash_occurs h filled),
          )
        ])

  -- For a target with two names that are not empty and no empty message hash, the match says yes exactly
  -- when the encoded event holds both names and, if there is one, the hash.
  pub generic_event_match_iff :
      IsSearchable target
      → (generic_event_match {C = C} encode event target ≡ ok true) ↔ Matches (encode event) target
  generic_event_match_iff s = (generic_event_match-Matches, Matches-generic_event_match s)

  -- An empty message hash makes the match panic on each event that holds both names.
  pub generic_event_match_panics :
      target.module_name ≢ []
      → target.function_name ≢ []
      → Occurs target.module_name (encode event)
      → Occurs target.function_name (encode event)
      → target.message_hash ≡ some []
      → generic_event_match {C = C} encode event target ≡ err panic
  unfolding generic_event_match
  generic_event_match_panics m f om of empty = rw (
    (has_window_iff target.module_name (encode event)).0.1 (m, om),
    (has_window_iff target.function_name (encode event)).0.1 (f, of),
    empty,
    (has_window_iff [] (encode event)).1.1 refl,
  )
