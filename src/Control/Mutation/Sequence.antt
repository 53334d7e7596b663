-- ===== src/Control/Mutation/Sequence.antt =====
-- core/control/manager.go `withMutationResult`: what requests that come one after the other leave.
use llamarig.Common.{
  ◌≡◌, refl, sym, ap, subst, ◌∙◌, ◌↔◌, true, false, some, List, [], ◌∷◌, ◌++◌, append_assoc,
  append-nil, All,
}
use llamarig.Common.Text.{Text}
use llamarig.Common.Results.{Result, ok, err}
use llamarig.Control.{Failure, kind_of}
use llamarig.Control.Mutation.{Entry, Shared, entry_of, with_mutation_result, mutation_recorded}

err_same : {A : Type 0} {e f : Failure} → ◌≡◌ {A = Result Failure A} (err e) (err f) → e ≡ f
err_same h = cc

-- A call of `withMutationResult`.
pub record Request (S : Type 0) (A : Type 0) : Type 0 where
  pub action : Text
  pub fn : Shared S → Result Failure A × Shared S

module _ {S : Type 0} {A : Type 0} where
  -- The requests in their order, each by `withMutationResult`.
  abbrev pub run_requests : List (Request S A) → Shared S → List (Result Failure A) × Shared S
  run_requests [] s = ([], s)
  run_requests (q ∷ qs) s =
      let (r, t) = with_mutation_result q.action q.fn s in
      let (rs, u) = run_requests qs t in (r ∷ rs, u)

  -- The function of a request hands nothing to the audit sink itself.
  abbrev pub IsSilent : Request S A → Type 0
  IsSilent q = (s : Shared S) → ((q.fn s).1.audited ≡ s.audited) × ((q.fn s).1.entries ≡ s.entries)

  -- An entry that tells of a request what came of it.
  abbrev pub Tells : Request S A → Result Failure A → Entry → Type 0
  Tells q r e =
      (e.action ≡ q.action)
      × ((e.success ≡ true) ↔ ((a : A) × (r ≡ ok a)))
      × ((f : Failure) → r ≡ err f → e.error_kind ≡ some (kind_of f))

  abbrev pub AllTell : List (Request S A) → List (Result Failure A) → List Entry → Type 0
  AllTell [] [] [] = Unit
  AllTell (q ∷ qs) (r ∷ rs) (e ∷ es) = Tells q r e × AllTell qs rs es
  AllTell _ _ _ = ⊥

  entry_of-Tells : (q : Request S A) (r : Result Failure A) → Tells q r (entry_of q.action r)
  entry_of-Tells q (ok a) = (refl, (λ h. (a, refl), λ h. refl), λ f h. cc)
  entry_of-Tells q (err e) =
      (refl, (λ h. cc, λ h. cc), λ f h. ap (λ (x : Failure). some (kind_of x)) (err_same h))

  -- One request from an idle manager.
  record Once (q : Request S A) (s : Shared S) : Type 0 where
    entry : Entry
    free : (with_mutation_result q.action q.fn s).1.busy ≡ false
    audited : (with_mutation_result q.action q.fn s).1.audited ≡ true
    entries : (with_mutation_result q.action q.fn s).1.entries ≡ s.entries ++ entry ∷ []
    tells : Tells q (with_mutation_result q.action q.fn s).0 entry

  one_request :
      (q : Request S A) (s : Shared S) → IsSilent q → s.busy ≡ false → s.audited ≡ true → Once q s
  one_request q s silent free audited =
      let started : Shared S = record s { busy = true } in
      let (kept, same) = silent started in
      let done = mutation_recorded q.action q.fn s free (kept ∙ audited) in
      let e = entry_of q.action (q.fn started).0 in
      record {
        entry = e;
        free = ap (λ r. r.1.busy) done;
        audited = ap (λ r. r.1.audited) done ∙ kept ∙ audited;
        entries = ap (λ r. r.1.entries) done ∙ ap (λ (es : List Entry). es ++ e ∷ []) same;
        tells =
            subst (λ r. Tells q r e) (sym (ap (λ r. r.0) done)) (entry_of-Tells q (q.fn started).0);
      }

  -- What requests leave that come one after the other: the manager is idle again, and the audit sink
  -- was handed one more entry for each, in their order, that tells what came of it.
  abbrev pub AreRecorded :
      List (Request S A) → Shared S → List (Result Failure A) × Shared S → Type 0
  AreRecorded qs s (rs, t) =
      (t.busy ≡ false) × (es : List Entry) × (t.entries ≡ s.entries ++ es) × AllTell qs rs es

  -- Where no operation runs and an audit sink is there, and the functions of the requests hand it
  -- nothing themselves: behind any requests, one after the other, no operation runs, and the sink was
  -- handed exactly one more entry for each request, in their order, with its action, with success
  -- exactly where its result is no error, and with the kind of its error otherwise.
  pub requests_recorded :
      (qs : List (Request S A)) (s : Shared S)
      → All IsSilent qs
      → s.busy ≡ false
      → s.audited ≡ true
      → AreRecorded qs s (run_requests qs s)
  requests_recorded [] s h free audited = (free, [], sym (append-nil s.entries), tt)
  requests_recorded (q ∷ qs) s (silent, h) free audited =
      let once = one_request q s silent free audited in
      let t = (with_mutation_result q.action q.fn s).1 in
      let (idle, es, entries, tell) = requests_recorded qs t h once.free once.audited in
      (
        idle,
        once.entry ∷ es,
        entries
            ∙ ap (λ (l : List Entry). l ++ es) once.entries
            ∙ append_assoc s.entries (once.entry ∷ []) es,
        (once.tells, tell),
      )
