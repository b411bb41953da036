-- ===== src/Callbacks/Typed.antt =====
-- detail/DataMoveCallbackRegistry.hxx: after any registrations, which callback an id gives at which
-- type.
use datahandlinglibs.Base.{
  ◌≡◌, refl, sym, ap, subst, ◌∙◌, ◌≢◌, inl, inr, Bool, true, false, Option, none, some, List, [],
  ◌∷◌, ◌++◌, arith, if◌then◌else◌, Bool-cases, Option-cases,
}
use Prim.Native.String.{String}
use text.Mathlib.Text.{◌==◌ as ◌=str◌}
use text.Mathlib.TextEquality.{eq_iff}
use datahandlinglibs.Callbacks.{
  Registered, Registry, Answer, find, register_callback, provide, get_callback,
}

-- A call of `register_callback`.
pub record Registration (DataType : Type 0) (Callback : DataType → Type 0) : Type 0 where
  pub id : String
  pub entry : Registered DataType Callback

module _ (DataType : Type 0) (Callback : DataType → Type 0) (same : Discrete DataType) where
  -- The calls of `register_callback`, in their order.
  unfoldable pub registered :
      List (Registration DataType Callback)
      → Registry DataType Callback
      → Registry DataType Callback
  registered [] registry = registry
  registered (c ∷ calls) registry =
      registered calls
        (register_callback DataType Callback c.entry.data_type c.id c.entry.callback registry)

  -- The first call with an id.
  abbrev pub first :
      String → List (Registration DataType Callback) → Option (Registered DataType Callback)
  first id [] = none
  first id (c ∷ calls) = if c.id =str id then some c.entry else first id calls

  abbrev or_else :
      Option (Registered DataType Callback)
      → Option (Registered DataType Callback)
      → Option (Registered DataType Callback)
  or_else none o = o
  or_else (some r) o = some r

  find-append :
      (id key : String) (r : Registered DataType Callback) (registry : Registry DataType Callback)
      → find DataType Callback id (registry ++ ((key, r) ∷ []))
        ≡ or_else (find DataType Callback id registry) (if key =str id then some r else none)
  unfolding find
  find-append id key r [] = refl
  find-append id key r ((k, s) ∷ registry) = ground (arith, find-append id key r registry)

  or_else-none : (o : Option (Registered DataType Callback)) → o ≡ or_else o none
  or_else-none none = refl
  or_else-none (some r) = refl

  or_else_assoc :
      (a b c : Option (Registered DataType Callback))
      → or_else (or_else a b) c ≡ or_else a (or_else b c)
  or_else_assoc none b c = refl
  or_else_assoc (some r) b c = refl

  stays :
      (id : String) (c : Registration DataType Callback) (r : Registered DataType Callback)
      (registry : Registry DataType Callback)
      → find DataType Callback c.id registry ≡ some r
      → find DataType Callback id registry
        ≡ or_else (find DataType Callback id registry) (if c.id =str id then some c.entry else none)
  stays id c r registry e = elim (Bool-cases (c.id =str id)) [
    | inl h ↦
        rw (subst (λ k. find DataType Callback k registry ≡ some r) ((eq_iff c.id id).0 h) e) refl
    | inr h ↦ rw h (or_else-none (find DataType Callback id registry))
  ]

  pick :
      (b : Bool) (x : Registered DataType Callback) (o : Option (Registered DataType Callback))
      → or_else (if b then some x else none) o ≡ (if b then some x else o)
  pick true x o = refl
  pick false x o = refl

  -- One more registration changes an answer only where there was none.
  find-register_callback :
      (id : String) (c : Registration DataType Callback) (registry : Registry DataType Callback)
      → find DataType Callback id
          (register_callback DataType Callback c.entry.data_type c.id c.entry.callback registry)
        ≡ or_else (find DataType Callback id registry) (if c.id =str id then some c.entry else none)
  unfolding register_callback
  find-register_callback id c registry =
      elim (Option-cases (find DataType Callback c.id registry)) [
        | inl e ↦ rw (e, register_callback) (find-append id c.id c.entry registry)
        | inr (r, e) ↦ rw (e, register_callback) (stays id c r registry e)
      ]

  find-registered :
      (id : String) (calls : List (Registration DataType Callback))
      (registry : Registry DataType Callback)
      → find DataType Callback id (registered calls registry)
        ≡ or_else (find DataType Callback id registry) (first id calls)
  unfolding registered
  find-registered id [] registry = or_else-none (find DataType Callback id registry)
  find-registered id (c ∷ calls) registry =
      find-registered id calls
        (register_callback DataType Callback c.entry.data_type c.id c.entry.callback registry)
      ∙ (ap (λ o. or_else o (first id calls)) (find-register_callback id c registry)
          ∙ (or_else_assoc (find DataType Callback id registry) _ (first id calls)
              ∙ ap (or_else (find DataType Callback id registry))
                  (pick (c.id =str id) c.entry (first id calls))))

  -- The callback with its type, carried along the equation of types.
  carried :
      (r : Registered DataType Callback) (t : DataType) (e : r.data_type ≡ t)
      → r ≡ record { data_type = t; callback = subst Callback e r.callback }
  carried r t e = λ i. record { data_type = e i; callback = coe 0 i (j. Callback (e j)) r.callback }

  cast :
      (r : Registered DataType Callback) (t : DataType) (f : Callback t) (d : Dec (r.data_type ≡ t))
      → ◌≡◌ {A = Answer DataType Callback t}
          (elim d [
            | yes e ↦ Answer.found (subst Callback e r.callback)
            | no _ ↦ Answer.null_dereference
          ])
          (Answer.found f)
      → r ≡ record { data_type = t; callback = f }
  cast r t f (yes e) h =
      let same_callback : subst Callback e r.callback ≡ f = cc h in
      carried r t e ∙ ap (λ g. record { data_type = t; callback = g }) same_callback
  cast r t f (no ne) h = absurd (cc h)

  -- The answer is that of the first registration.
  pub get_callback-registered :
      (calls : List (Registration DataType Callback)) (id : String) (t : DataType)
      → get_callback DataType Callback same t id (registered calls []) ≡ elim (first id calls) [
        | none ↦ Answer.nullptr
        | some r ↦ provide DataType Callback same t r
      ]
  unfolding get_callback find
  get_callback-registered calls id t =
      ap (λ o. elim o [ none ↦ Answer.nullptr | some r ↦ provide DataType Callback same t r ])
        (find-registered id calls [])

  -- Whatever the registrations, a callback that is found under an id for a type was registered for
  -- that type, and is that of the first registration of the id.
  pub get_callback-found :
      (calls : List (Registration DataType Callback)) (id : String) (t : DataType) (f : Callback t)
      → get_callback DataType Callback same t id (registered calls []) ≡ Answer.found f
      → first id calls ≡ some (record { data_type = t; callback = f })
  unfolding provide
  get_callback-found calls id t f h = elim (Option-cases (first id calls)) [
    | inl e ↦ absurd (cc (sym (get_callback-registered calls id t) ∙ h, e))
    | inr (r, e) ↦
        e
        ∙ ap some (
            cast r t f (same r.data_type t) (
              subst
                (λ o.
                  ◌≡◌ {A = Answer DataType Callback t}
                    (elim o [ none ↦ Answer.nullptr | some r ↦ provide DataType Callback same t r ])
                    (Answer.found f))
                e (sym (get_callback-registered calls id t) ∙ h)))
  ]

  -- Whatever the registrations, asking for an id whose first registration is for another type reads
  -- through a null pointer.
  pub get_callback-wrong_type :
      (calls : List (Registration DataType Callback)) (id : String) (t : DataType)
      (r : Registered DataType Callback)
      → first id calls ≡ some r
      → r.data_type ≢ t
      → get_callback DataType Callback same t id (registered calls []) ≡ Answer.null_dereference
  unfolding provide
  get_callback-wrong_type calls id t r e ne =
      get_callback-registered calls id t ∙ rw e (other (same r.data_type t) ne)
    where
      other :
          (d : Dec (r.data_type ≡ t))
          → r.data_type ≢ t
          → ◌≡◌ {A = Answer DataType Callback t}
              (elim d [
                | yes e ↦ Answer.found (subst Callback e r.callback)
                | no _ ↦ Answer.null_dereference
              ])
              Answer.null_dereference
      other (yes e) ne = absurd (ne e)
      other (no _) ne = refl
