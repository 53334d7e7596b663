-- ===== src/Control/Mutation.antt =====
-- core/control/manager.go `withMutationResult`: one mutating operation at a time, each recorded.
pub mod Sequence
use llamarig.Common.{◌≡◌, Bool, true, false, Option, none, some, List, [], ◌∷◌, ◌++◌}
use llamarig.Common.Text.{Text, codes}
use llamarig.Common.Results.{Result, ok, err}
use llamarig.Control.{ErrorKind, conflict, Failure, core_error, kind_of}

-- What `record` hands to the audit sink, but for the duration.
pub record Entry : Type 0 where
  pub action : Text
  pub success : Bool
  pub error_kind : Option ErrorKind

-- The busy flag, whether there is an audit sink and what it was handed, and what the operations
-- work on.
pub record Shared (S : Type 0) : Type 0 where
  pub busy : Bool
  pub audited : Bool
  pub entries : List Entry
  pub inside : S

abbrev pub entry_of : {A : Type 0} → Text → Result Failure A → Entry
entry_of action (ok a) = record { action = action; success = true; error_kind = none }
entry_of action (err e) = record { action = action; success = false; error_kind = some (kind_of e) }

module _ {S : Type 0} {A : Type 0} where
  -- `record`
  unfoldable pub record_entry : Text → Result Failure A → Shared S → Shared S
  record_entry action r s = elim s.audited [
    | false ↦ s
    | true ↦ record s { entries = s.entries ++ entry_of action r ∷ [] }
  ]

  -- `withMutationResult`; `fn` runs with the flag set.
  unfoldable pub with_mutation_result :
      Text → (Shared S → Result Failure A × Shared S) → Shared S → Result Failure A × Shared S
  unfolding record_entry
  with_mutation_result action fn s = elim s.busy [
    | true ↦ (err (core_error conflict (codes "another mutating operation is running")), s)
    | false ↦
        let (r, t) = fn (record s { busy = true }) in
        (r, record (record_entry action r t) { busy = false })
  ]

  -- Where no operation runs and an audit sink is there, the function of the operation runs with the
  -- flag set, its result is passed on, the flag is free again, and the one entry that the manager
  -- adds behind those of the function has the result's success and kind.
  pub mutation_recorded :
      (action : Text) (fn : Shared S → Result Failure A × Shared S) (s : Shared S)
      → s.busy ≡ false
      → (fn (record s { busy = true })).1.audited ≡ true
      → with_mutation_result action fn s ≡ (
        (fn (record s { busy = true })).0,
        record (fn (record s { busy = true })).1 {
          busy = false;
          entries =
              (fn (record s { busy = true })).1.entries
              ++ entry_of action (fn (record s { busy = true })).0 ∷ [];
        },
      )
  unfolding with_mutation_result record_entry
  mutation_recorded action fn s free audited =
      rw (with_mutation_result, free, record_entry, audited, audited)

  -- An operation that is begun inside another is refused as a conflict without running its function:
  -- nothing changes but for the entry that the outer operation records.
  pub nested_refused :
      (outer inner : Text) (fn : Shared S → Result Failure A × Shared S) (s : Shared S)
      → s.busy ≡ false
      → s.audited ≡ true
      → with_mutation_result outer (with_mutation_result inner fn) s ≡ (
        err (core_error conflict (codes "another mutating operation is running")),
        record s {
          entries =
              s.entries
              ++ record { action = outer; success = false; error_kind = some conflict } ∷ [];
        },
      )
  unfolding with_mutation_result record_entry kind_of
  nested_refused outer inner fn s free audited =
      rw (with_mutation_result, free, record_entry, audited, audited)
