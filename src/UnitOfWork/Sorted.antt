-- ===== src/UnitOfWork/Sorted.antt =====
-- Every bucket of a unit of work holds the actions that were registered for its phase.
use kronos_ts.Common.{◌≡◌, refl, subst, List, [], ◌∷◌, ◌++◌, All, All-append}
use kronos_ts.UnitOfWork.{
  Phase, pre_invocation, invocation, prepare_commit, commit, after_commit, Action, Registrations,
  nothing, on_phase, on_error, when_complete, on, bucket, UnitOfWork, register, clear,
}

-- The bucket of a phase holds what was registered for it.
abbrev pub IsFor : Phase → Action → Type 0
IsFor at action = action.registered_for ≡ at

pub record IsSorted (u : UnitOfWork) : Type 0 where
  pub pre_invocations : All (IsFor pre_invocation) u.buckets.pre_invocations
  pub invocations : All (IsFor invocation) u.buckets.invocations
  pub prepare_commits : All (IsFor prepare_commit) u.buckets.prepare_commits
  pub commits : All (IsFor commit) u.buckets.commits
  pub after_commits : All (IsFor after_commit) u.buckets.after_commits

pub bucket-IsSorted :
    (at : Phase) (u : UnitOfWork) → IsSorted u → All (IsFor at) (bucket at u.buckets)
unfolding bucket
bucket-IsSorted pre_invocation u h = h.pre_invocations
bucket-IsSorted invocation u h = h.invocations
bucket-IsSorted prepare_commit u h = h.prepare_commits
bucket-IsSorted commit u h = h.commits
bucket-IsSorted after_commit u h = h.after_commits

pub sorted_record :
    (u : UnitOfWork)
    → All (IsFor pre_invocation) u.buckets.pre_invocations
    → All (IsFor invocation) u.buckets.invocations
    → All (IsFor prepare_commit) u.buckets.prepare_commits
    → All (IsFor commit) u.buckets.commits
    → All (IsFor after_commit) u.buckets.after_commits
    → IsSorted u
sorted_record u a b c d e = record {
  pre_invocations = a;
  invocations = b;
  prepare_commits = c;
  commits = d;
  after_commits = e;
}

pub clear-IsSorted : (at : Phase) (u : UnitOfWork) → IsSorted u → IsSorted (clear at u)
unfolding clear
clear-IsSorted pre_invocation u h =
    sorted_record _ tt h.invocations h.prepare_commits h.commits h.after_commits
clear-IsSorted invocation u h =
    sorted_record _ h.pre_invocations tt h.prepare_commits h.commits h.after_commits
clear-IsSorted prepare_commit u h =
    sorted_record _ h.pre_invocations h.invocations tt h.commits h.after_commits
clear-IsSorted commit u h =
    sorted_record _ h.pre_invocations h.invocations h.prepare_commits tt h.after_commits
clear-IsSorted after_commit u h =
    sorted_record _ h.pre_invocations h.invocations h.prepare_commits h.commits tt

-- One more action at the end of its bucket.
added :
    (at : Phase) (a : Action) (xs : List Action)
    → IsFor at a
    → All (IsFor at) xs
    → All (IsFor at) (xs ++ a ∷ [])
added at a xs k h = All-append (IsFor at) xs (a ∷ []) h (k, tt)

on-IsSorted :
    (at : Phase) (a : Action) (u : UnitOfWork) → IsFor at a → IsSorted u → IsSorted (on at a u)
unfolding on
on-IsSorted pre_invocation a u k h =
    sorted_record _ (added pre_invocation a u.buckets.pre_invocations k h.pre_invocations)
      h.invocations h.prepare_commits h.commits h.after_commits
on-IsSorted invocation a u k h =
    sorted_record _ h.pre_invocations (added invocation a u.buckets.invocations k h.invocations)
      h.prepare_commits h.commits h.after_commits
on-IsSorted prepare_commit a u k h =
    sorted_record _ h.pre_invocations h.invocations
      (added prepare_commit a u.buckets.prepare_commits k h.prepare_commits) h.commits
      h.after_commits
on-IsSorted commit a u k h =
    sorted_record _ h.pre_invocations h.invocations h.prepare_commits
      (added commit a u.buckets.commits k h.commits) h.after_commits
on-IsSorted after_commit a u k h =
    sorted_record _ h.pre_invocations h.invocations h.prepare_commits h.commits
      (added after_commit a u.buckets.after_commits k h.after_commits)

pub moved-IsSorted : (u v : UnitOfWork) → u.buckets ≡ v.buckets → IsSorted u → IsSorted v
moved-IsSorted u v e h =
    sorted_record v (subst (λ b. All (IsFor pre_invocation) b.pre_invocations) e h.pre_invocations)
      (subst (λ b. All (IsFor invocation) b.invocations) e h.invocations)
      (subst (λ b. All (IsFor prepare_commit) b.prepare_commits) e h.prepare_commits)
      (subst (λ b. All (IsFor commit) b.commits) e h.commits)
      (subst (λ b. All (IsFor after_commit) b.after_commits) e h.after_commits)

pub register-IsSorted : (r : Registrations) (u : UnitOfWork) → IsSorted u → IsSorted (register r u)
unfolding register
register-IsSorted nothing u h = h
register-IsSorted (on_phase at label more) u h =
    register-IsSorted more _
      (on-IsSorted at (record { registered_for = at; label = label }) u refl h)
register-IsSorted (on_error handler more) u h = register-IsSorted more _ (moved-IsSorted u _ refl h)
register-IsSorted (when_complete handler more) u h =
    register-IsSorted more _ (moved-IsSorted u _ refl h)
