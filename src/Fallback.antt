-- ===== src/Fallback.antt =====
-- fallback/fallback.go and fallback/config.go: Execute. Callbacks that only observe are recorded as
-- events.
pub mod Laws
use fortify.Base.{Bool, true, false, not, ◌&&◌, if◌then◌else◌, Option, none, some, List, [], ◌∷◌}
use fortify.Ferrors.{Error}

-- OnSuccess and OnFallback with the primary's error.
pub data Event : Type 0 where
  on_success : Event
  on_fallback : Error → Event

pub record Config (T : Type 0) : Type 0 where
  pub fallback : Option (Error → T × Option Error)
  pub should_fallback : Option (Error → Bool)
  pub has_on_fallback : Bool
  pub has_on_success : Bool

-- What Execute returns, the callbacks that it made, and whether it ran the primary function.
pub record Outcome (T : Type 0) : Type 0 where
  pub value : T
  pub err : Option Error
  pub events : List Event
  pub ran : Bool

module _ {T : Type 0} where
  -- ShouldFallback(err); nil allows every error.
  unfoldable pub wanted : Config T → Error → Bool
  wanted c e = elim c.should_fallback [ none ↦ true | some f ↦ f e ]

  -- The primary function has failed with e.
  unfoldable pub on_error : Config T → T → Error → Outcome T
  unfolding wanted
  on_error c zero_value e =
      let events : List Event = if c.has_on_fallback then on_fallback e ∷ [] else [] in
      if not (wanted c e)
      then record { value = zero_value; err = some e; events = []; ran = true }
      else elim c.fallback [
        | none ↦ record { value = zero_value; err = some e; events = []; ran = true }
        | some f ↦ elim (f e).1 [
          | some fe ↦ record { value = zero_value; err = some e; events = events; ran = true }
          | none ↦ record { value = (f e).0; err = none; events = events; ran = true }
        ]
      ]

  unfoldable pub execute : Config T → T → Option Error → T × Option Error → Outcome T
  unfolding on_error
  execute c zero_value (some ce) primary = record {
    value = zero_value;
    err = some ce;
    events = [];
    ran = false;
  }
  execute c zero_value none (value, none) = record {
    value = value;
    err = none;
    events = if c.has_on_success then on_success ∷ [] else [];
    ran = true;
  }
  execute c zero_value none (value, some e) = on_error c zero_value e
