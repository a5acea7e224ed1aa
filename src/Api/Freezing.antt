-- ===== src/Api/Freezing.antt =====
-- What `PrepareToSave` of the kinds has in common: the status keeps the spec that it saw first, and a
-- warning while the spec differs from it.
use boshv.Base.{Bool, true, false, not, ◌≡◌, sym, ◌∙◌, ap, List, [], ◌∷◌, Str, ◌==◌, if◌then◌else◌}
use boshv.Api.Types.{Object}

-- A user edits the spec; a reconciler saves.
pub data Event (S : Type 0) : Type 0 where
  edit : S → Event S
  save : Event S

module _ {S T O : Type 0} (prepare : Object S T → Bool × Object S T) (frozen : T → Bool)
    (original : T → O) (warning : T → Str) (mutated : O → S → Bool) where
  unfoldable pub run : List (Event S) → Object S T → Object S T
  run [] o = o
  run (edit s ∷ events) o = run events (record o { spec = s })
  run (save ∷ events) o = run events (prepare o).1

  -- One save of a frozen object.
  pub record Freezes : Type 0 where
    pub spec_kept : (o : Object S T) → (prepare o).1.spec ≡ o.spec
    pub still_frozen :
        (o : Object S T) → frozen o.status ≡ true → frozen (prepare o).1.status ≡ true
    pub original_kept :
        (o : Object S T)
        → frozen o.status ≡ true
        → original (prepare o).1.status ≡ original o.status
    pub warned :
        (o : Object S T)
        → frozen o.status ≡ true
        → (warning (prepare o).1.status == []) ≡ not (mutated (original o.status) o.spec)
    pub settled :
        (o : Object S T) → frozen o.status ≡ true → prepare (prepare o).1 ≡ (false, (prepare o).1)

  -- After the events and a last save: the original is the one of `o`, the warning is empty exactly if
  -- the spec agrees with it, and a further save finds nothing to write.
  abbrev pub StaysFrozen : List (Event S) → Object S T → Type 0
  StaysFrozen events o =
      let last = (prepare (run events o)).1 in
      (original last.status ≡ original o.status)
      × ((warning last.status == []) ≡ not (mutated (original o.status) last.spec))
      × (prepare last ≡ (false, last))

  pub run-StaysFrozen :
      Freezes
      → (events : List (Event S)) (o : Object S T) → frozen o.status ≡ true
      → StaysFrozen events o
  unfolding run
  run-StaysFrozen law [] o h = (
    law.original_kept o h,
    law.warned o h ∙ ap (λ s. not (mutated (original o.status) s)) (sym (law.spec_kept o)),
    law.settled o h,
  )
  run-StaysFrozen law (edit s ∷ events) o h = run-StaysFrozen law events (record o { spec = s }) h
  run-StaysFrozen law (save ∷ events) o h =
      rw (law.original_kept o h) at
        (run-StaysFrozen law events (prepare o).1 (law.still_frozen o h))

  -- The first save freezes the object, and gives `first` for the original.
  abbrev pub FreezesFirst : O → List (Event S) → Object S T → Type 0
  FreezesFirst first events o =
      (original (prepare o).1.status ≡ (if frozen o.status then original o.status else first))
      × StaysFrozen events (prepare o).1
