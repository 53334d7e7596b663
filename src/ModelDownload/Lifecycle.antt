-- ===== src/ModelDownload/Lifecycle.antt =====
-- A goroutine's first and last moments keep the download manager in order: a job that `Start`
-- stores, with its goroutine or without, and `clearActive`.
use llamarig.Common.{◌≡◌, ◌≢◌, ap, inl, inr, true, false, none, some, [], arith, Bool-cases}
use llamarig.Common.Text.{Text, ◌=ₜ◌, =ₜ_iff, =ₜ_refl}
use llamarig.Common.Dict.{lookup, insert, erase, lookup-insert, lookup-erase}
use llamarig.ModelDownload.{queued, Job}
use llamarig.ModelDownload.Operations.{is_cancellable, clear_active}
use llamarig.ModelDownload.System.{Phase, spawned, settled, Sys}
use llamarig.ModelDownload.Invariant.{IsLive, IsValid, settled_not-cancellable}

module _ {F : Type 0} (s : Sys F) (v : IsValid s) where
  -- The goroutine of a known job is that of another one than a new id names.
  fresh-ne :
      (i k : Text) (j : Job F)
      → lookup i s.manager.jobs ≡ none
      → lookup k s.manager.jobs ≡ some j
      → (i =ₜ k) ≡ false
  fresh-ne i k j fresh known = ground (arith, =ₜ_iff i k)

  module _ (i : Text) (new : Job F) (fresh : lookup i s.manager.jobs ≡ none) where
    -- A job that is stored without a goroutine, and is at its end.
    pub store-IsValid :
        is_cancellable new.state ≡ false
        → IsValid (record s { manager = record s.manager { jobs = insert i new s.manager.jobs } })
    store-IsValid ended = record {
      live = λ k q h.
          let l = v.live k q h in
          record {
            job = l.job;
            flag = l.flag;
            known = rw (lookup-insert, fresh-ne i k l.job fresh l.known) l.known;
            owner = l.owner;
            context = l.context;
            fits = l.fits;
          };
      owned = v.owned;
      path = λ p k j a h.
          let (q, e) = (v.owned p k a).1 in
          let l = v.live k q e in
          v.path p k j a (rw (lookup-insert, fresh-ne i k l.job fresh l.known) at h);
      served = λ k j h c. elim (Bool-cases (i =ₜ k)) [
        | inl same ↦ absurd (ground (arith, lookup-insert i k new s.manager.jobs))
        | inr other ↦ v.served k j (ground (arith, lookup-insert i k new s.manager.jobs)) c
      ];
    }

    module _ (queued_new : new.state ≡ queued) (named : i ≢ [])
        (free : lookup new.target_path s.manager.active ≡ none) where
      abbrev pub spawned_sys : Sys F
      spawned_sys = record {
        manager = record {
          jobs = insert i new s.manager.jobs;
          active = insert new.target_path i s.manager.active;
          cancel = insert i false s.manager.cancel;
        };
        workers = insert i spawned s.workers;
      }

      -- No live goroutine owns the free path.
      path-ne :
          (k : Text) (q : Phase) (l : IsLive s k q) → (new.target_path =ₜ l.job.target_path) ≡ false
      path-ne k q l = ground (arith, l.owner, =ₜ_iff new.target_path l.job.target_path)

      spawn-IsLive :
          (k : Text) (q : Phase) → lookup k spawned_sys.workers ≡ some q → IsLive spawned_sys k q
      spawn-IsLive k q h = elim (Bool-cases (i =ₜ k)) [
        | inl same ↦
            let e : i ≡ k = (=ₜ_iff i k).0 same in
            let q_is : spawned ≡ q = ground (arith, lookup-insert i k spawned s.workers) in
            record {
              job = new;
              flag = false;
              known = rw (lookup-insert, same);
              owner = rw (lookup-insert, =ₜ_refl) (ap some e);
              context = rw (lookup-insert, same);
              fits = rw (← q_is, queued_new) tt;
            }
        | inr other ↦
            let l = v.live k q (ground (arith, lookup-insert i k spawned s.workers)) in
            record {
              job = l.job;
              flag = l.flag;
              known = rw (lookup-insert, other) l.known;
              owner = rw (lookup-insert, path-ne k q l) l.owner;
              context = rw (lookup-insert, other) l.context;
              fits = l.fits;
            }
      ]

      spawn_served :
          (k : Text)
          → (q : Phase) × (lookup k s.workers ≡ some q)
          → (q : Phase) × (lookup k spawned_sys.workers ≡ some q)
      spawn_served k (q, e) = elim (Bool-cases (i =ₜ k)) [
        | inl same ↦ (spawned, rw (lookup-insert, same))
        | inr other ↦ (q, rw (lookup-insert, other) e)
      ]

      spawn_owned :
          (p k : Text)
          → lookup p spawned_sys.manager.active ≡ some k
          → (k ≢ []) × ((q : Phase) × (lookup k spawned_sys.workers ≡ some q))
      spawn_owned p k h = elim (Bool-cases (new.target_path =ₜ p)) [
        | inl same ↦
            let e : i ≡ k = ground (arith, lookup-insert new.target_path p i s.manager.active) in
            rw (← e) (named, (spawned, rw (lookup-insert, =ₜ_refl)))
        | inr other ↦
            let (n, w) =
              v.owned p k (ground (arith, lookup-insert new.target_path p i s.manager.active)) in
            (n, spawn_served k w)
      ]

      spawn-path :
          (p k : Text) (j : Job F)
          → lookup p spawned_sys.manager.active ≡ some k
          → lookup k spawned_sys.manager.jobs ≡ some j
          → j.target_path ≡ p
      spawn-path p k j a h = elim (Bool-cases (new.target_path =ₜ p)) [
        | inl same ↦
            let e : i ≡ k = ground (arith, lookup-insert new.target_path p i s.manager.active) in
            let j_is : new ≡ j = ground (arith, lookup-insert i k new s.manager.jobs, =ₜ_iff i k) in
            rw (← j_is) ((=ₜ_iff new.target_path p).0 same)
        | inr other ↦
            let a' : lookup p s.manager.active ≡ some k =
              ground (arith, lookup-insert new.target_path p i s.manager.active) in
            let (q, e) = (v.owned p k a').1 in
            let l = v.live k q e in
            v.path p k j a' (rw (lookup-insert, fresh-ne i k l.job fresh l.known) at h)
      ]

      -- A new job with its goroutine.
      pub spawn-IsValid : IsValid spawned_sys
      spawn-IsValid = record {
        live = spawn-IsLive;
        owned = spawn_owned;
        path = spawn-path;
        served = λ k j h c. elim (Bool-cases (i =ₜ k)) [
          | inl same ↦ (spawned, rw (lookup-insert, same))
          | inr other ↦
              spawn_served k (v.served k j (ground (arith, lookup-insert i k new s.manager.jobs)) c)
        ];
      }

  module _ (i : Text) (l : IsLive s i settled) where
    abbrev pub cleared : Sys F
    cleared = record {
      manager = record s.manager {
        active = erase l.job.target_path s.manager.active;
        cancel = erase i s.manager.cancel;
      };
      workers = erase i s.workers;
    }

    clear-IsLive : (k : Text) (q : Phase) → lookup k cleared.workers ≡ some q → IsLive cleared k q
    clear-IsLive k q h =
        let other : (i =ₜ k) ≡ false = ground (arith, lookup-erase i k s.workers) in
        let l' = v.live k q (ground (arith, lookup-erase i k s.workers)) in
        record {
          job = l'.job;
          flag = l'.flag;
          known = l'.known;
          owner = ground (
            arith,
            l.owner,
            l'.owner,
            =ₜ_iff i k,
            =ₜ_iff l.job.target_path l'.job.target_path,
            lookup-erase l.job.target_path l'.job.target_path s.manager.active,
          );
          context = rw (lookup-erase, other) l'.context;
          fits = l'.fits;
        }

    -- A path that stays owned is not the cleared job's, and its owner is another goroutine.
    clear_kept :
        (p k : Text)
        → lookup p cleared.manager.active ≡ some k
        → (lookup p s.manager.active ≡ some k) × ((i =ₜ k) ≡ false)
    clear_kept p k h =
        let a : lookup p s.manager.active ≡ some k =
          ground (arith, lookup-erase l.job.target_path p s.manager.active) in
        (
          a,
          elim (Bool-cases (i =ₜ k)) [
            | inl same ↦
                let e : i ≡ k = (=ₜ_iff i k).0 same in
                let t : l.job.target_path ≡ p = v.path p k l.job a (rw (← e) l.known) in
                absurd (
                  ground (
                    arith,
                    =ₜ_iff l.job.target_path p,
                    lookup-erase l.job.target_path p s.manager.active,
                  ))
            | inr other ↦ other
          ],
        )

    clear_served :
        (k : Text) (j : Job F)
        → lookup k s.manager.jobs ≡ some j
        → is_cancellable j.state ≡ true
        → (q : Phase) × (lookup k cleared.workers ≡ some q)
    clear_served k j h c = elim (Bool-cases (i =ₜ k)) [
      | inl same ↦
          let e : i ≡ k = (=ₜ_iff i k).0 same in
          let j_is : l.job ≡ j = ground (arith, l.known) in
          absurd (settled_not-cancellable l.job.state l.fits (rw j_is c))
      | inr other ↦ let (q, w) = v.served k j h c in (q, rw (lookup-erase, other) w)
    ]

    pub clear-IsValid : IsValid cleared
    clear-IsValid = record {
      live = clear-IsLive;
      owned = λ p k h.
          let (a, other) = clear_kept p k h in
          let (n, (q, w)) = v.owned p k a in (n, (q, rw (lookup-erase, other) w));
      path = λ p k j a h. v.path p k j (clear_kept p k a).0 h;
      served = clear_served;
    }

    -- `clearActive` at the goroutine's end does just this.
    pub clear_active-cleared : clear_active i s.manager ≡ cleared.manager
    unfolding clear_active
    clear_active-cleared = ground (arith, l.known, l.owner, =ₜ_refl i)
