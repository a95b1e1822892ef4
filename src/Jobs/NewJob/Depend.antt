-- ===== src/Jobs/NewJob/Depend.antt =====
-- The loop over the dependencies of a new job: what it leaves of the server, and whom it makes tell
-- the new job of an error level.
use task_spooler.Base.{
  ℕ, suc, ◌+◌, ◌≡◌, ◌≢◌, refl, sym, subst, ◌∙◌, ap, true, List, [], ◌∷◌, ◌++◌, some, ite, if_pos,
  if_neg, All, arith, Bool-cases, inl, inr,
}
use task_spooler.Base.Int.{ℤ, pos_part, neg_part, ℤ_discrete, minus_one, ◌<ℤ◌, leb_ℤ, ltb_ℤ}
use task_spooler.Base.Run.{Ensures, Ensures-step, Ensures-mono, Ensures-ok, or_exits}
use task_spooler.State.{Job, Server}
use task_spooler.Jobs.Find.{findjob, update_job, is_some, find_last_stored_jobid_finished}
use task_spooler.Jobs.Slots.{slots_in_use, slots_in_use-update_keep}
use task_spooler.Jobs.Lookup.{count, findjob-update_self, findjob-update_other}
use task_spooler.Jobs.Ids.{ids, ids-update_job}
use task_spooler.Jobs.Finish.Notify.{SameGlobals, SameGlobals-trans}
use task_spooler.Jobs.NewJob.{
  Deps, add_notify_errorlevel_to, depend_on_finished, last_unfinished, depend_on_last,
  depend_on_given, depend_on_one, depend_loop,
}

-- The jobs differ at most in whom they tell.
pub record SameQueue (s t : Server) : Type 0 where
  pub globals : SameGlobals s t
  pub same_ids : ids t.jobs ≡ ids s.jobs
  pub same_slots : slots_in_use t.jobs ≡ slots_in_use s.jobs
  pub same_finished : t.first_finished ≡ s.first_finished

SameQueue-refl : (s : Server) → SameQueue s s
SameQueue-refl s = ground arith

SameQueue-trans : {s t u : Server} → SameQueue s t → SameQueue t u → SameQueue s u
SameQueue-trans h k = record {
  globals = SameGlobals-trans h.globals k.globals;
  same_ids = k.same_ids ∙ h.same_ids;
  same_slots = k.same_slots ∙ h.same_slots;
  same_finished = k.same_finished ∙ h.same_finished;
}

tell-SameQueue :
    (id jobid : ℤ) (s : Server)
    → SameQueue s (record s { jobs = update_job id (add_notify_errorlevel_to jobid) s.jobs })
tell-SameQueue id jobid s = record {
  globals = ground arith;
  same_ids = ids-update_job id _ (λ p. refl) s.jobs;
  same_slots = slots_in_use-update_keep id _ (λ p. (refl, refl)) s.jobs;
  same_finished = refl;
}

abbrev KeepsQueue : Server → Deps → Type 0
KeepsQueue s d = SameQueue s d.server

depend_on_finished-KeepsQueue : (d : Deps) → Ensures (KeepsQueue d.server) (depend_on_finished d)
unfolding depend_on_finished
depend_on_finished-KeepsQueue d =
    let ljobid = find_last_stored_jobid_finished minus_one d.server.first_finished in
    elim (Bool-cases (ltb_ℤ d.server.last_finished_jobid ljobid)) [
      | inl newer ↦ rw newer (
          Ensures-step (KeepsQueue d.server) (or_exits (findjob ljobid d.server.first_finished)) _
            λ p e. SameQueue-refl d.server)
      | inr older ↦ rw older (SameQueue-refl d.server)
    ]

depend_on_last-KeepsQueue :
    (jobid : ℤ) (d : Deps) → Ensures (KeepsQueue d.server) (depend_on_last jobid d)
unfolding depend_on_last
depend_on_last-KeepsQueue jobid d = elim (ℤ_discrete (last_unfinished jobid d.server) minus_one) [
  | yes gone ↦ rw (if_pos _ gone) (depend_on_finished-KeepsQueue d)
  | no here ↦ rw (if_neg _ here) (tell-SameQueue (last_unfinished jobid d.server) jobid d.server)
]

depend_on_given-KeepsQueue :
    (jobid id : ℤ) (d : Deps) → KeepsQueue d.server (depend_on_given jobid id d)
unfolding depend_on_given
depend_on_given-KeepsQueue jobid id d = elim (Bool-cases (is_some (findjob id d.server.jobs))) [
  | inl here ↦ rw here (tell-SameQueue id jobid d.server)
  | inr gone ↦ rw gone (SameQueue-refl d.server)
]

depend_on_one-KeepsQueue :
    (jobid id : ℤ) (d : Deps) → Ensures (KeepsQueue d.server) (depend_on_one jobid id d)
unfolding depend_on_one
depend_on_one-KeepsQueue jobid id d = elim (Bool-cases (leb_ℤ jobid id)) [
  | inl later ↦ rw later (SameQueue-refl d.server)
  | inr earlier ↦ rw earlier (elim (ℤ_discrete id minus_one) [
    | yes last ↦ rw (if_pos _ last) (depend_on_last-KeepsQueue jobid d)
    | no given ↦ rw (if_neg _ given) (depend_on_given-KeepsQueue jobid id d)
  ])
]

pub depend_loop-KeepsQueue :
    (jobid : ℤ) (deps : List ℤ) (d : Deps)
    → Ensures (KeepsQueue d.server) (depend_loop jobid deps d)
unfolding depend_loop
depend_loop-KeepsQueue jobid [] d = SameQueue-refl d.server
depend_loop-KeepsQueue jobid (id ∷ deps) d =
    Ensures-step (KeepsQueue d.server) (depend_on_one jobid id d) _ λ d' e.
      Ensures-mono (depend_loop jobid deps d') (depend_loop-KeepsQueue jobid deps d') λ d'' k.
        SameQueue-trans (Ensures-ok (KeepsQueue d.server) _ (depend_on_one-KeepsQueue jobid id d) e)
          k

-- The first job with the jobid `id` tells `jobid` of its error level `n` times.
pub record Tells (jobid id : ℤ) (s : Server) (n : ℕ) : Type 0 where
  pub teller : Job
  pub at : findjob id s.jobs ≡ some teller
  pub times : count jobid teller.notify_errorlevel_to ≡ n

count-snoc : (x : ℤ) (xs : List ℤ) → count x (xs ++ x ∷ []) ≡ suc (count x xs)
unfolding count
count-snoc x [] = ground arith
count-snoc x (y ∷ xs) = ground (arith, count-snoc x xs)

tell_self :
    (jobid id : ℤ) (s : Server) (n : ℕ)
    → Tells jobid id s n
    → Tells jobid id
        (record s { jobs = update_job id (add_notify_errorlevel_to jobid) s.jobs })
        (suc n)
tell_self jobid id s n t = record {
  teller = add_notify_errorlevel_to jobid t.teller;
  at =
      ground
        (arith, t.at, findjob-update_self id (add_notify_errorlevel_to jobid) (λ p. refl) s.jobs);
  times = count-snoc jobid t.teller.notify_errorlevel_to ∙ ap suc t.times;
}

tell_other :
    (jobid id other : ℤ) (s : Server) (n : ℕ)
    → id ≢ other
    → Tells jobid id s n
    → Tells jobid id
        (record s { jobs = update_job other (add_notify_errorlevel_to jobid) s.jobs })
        n
tell_other jobid id other s n ne t = record {
  teller = t.teller;
  at = findjob-update_other id other _ (λ p. refl) ne s.jobs ∙ t.at;
  times = t.times;
}

depend_on_given-Tells :
    (jobid id other : ℤ) (d : Deps) (n : ℕ)
    → Tells jobid id d.server n
    → Tells jobid id (depend_on_given jobid other d).server (ite (ℤ_discrete other id) (suc n) n)
unfolding depend_on_given
depend_on_given-Tells jobid id other d n t = elim (ℤ_discrete other id) [
  | yes same ↦
      let here : is_some (findjob other d.server.jobs) ≡ true = ground (arith, t.at) in
      rw (if_pos _ same, here)
        (subst
          (λ x.
            Tells jobid id
              (record d.server {
                jobs = update_job x (add_notify_errorlevel_to jobid) d.server.jobs;
              })
              (suc n))
          (sym same) (tell_self jobid id d.server n t))
  | no apart ↦ rw (if_neg _ apart) (elim (Bool-cases (is_some (findjob other d.server.jobs))) [
    | inl here ↦ rw here (tell_other jobid id other d.server n (λ e. apart (sym e)) t)
    | inr gone ↦ rw gone t
  ])
]

depend_on_one-Tells :
    (jobid id other : ℤ) (d : Deps) (n : ℕ)
    → id <ℤ jobid
    → other ≢ minus_one
    → Tells jobid id d.server n
    → Ensures
        (λ d'. Tells jobid id d'.server (ite (ℤ_discrete other id) (suc n) n))
        (depend_on_one jobid other d)
unfolding depend_on_one
depend_on_one-Tells jobid id other d n earlier ne t = elim (Bool-cases (leb_ℤ jobid other)) [
  | inl later ↦
      let apart : other ≢ id = λ e. absurd (ground (arith, ap pos_part e, ap neg_part e)) in
      rw (later, if_neg (ℤ_discrete other id) apart) t
  | inr before ↦
      rw (before, if_neg (ℤ_discrete other minus_one) ne)
        (depend_on_given-Tells jobid id other d n t)
]

-- An earlier job of the queue will tell the new job of its error level once more for each time that
-- a dependency names it, if no dependency is -1 and where the server goes on.
pub depend_loop-Tells :
    (jobid id : ℤ) (deps : List ℤ) (d : Deps) (n : ℕ)
    → id <ℤ jobid
    → All (λ x. x ≢ minus_one) deps
    → Tells jobid id d.server n
    → Ensures (λ d'. Tells jobid id d'.server (count id deps + n)) (depend_loop jobid deps d)
unfolding depend_loop count
depend_loop-Tells jobid id [] d n earlier ne t = let e : 0 + n ≡ n = omega arith in rw e t
depend_loop-Tells jobid id (other ∷ deps) d n earlier ne t =
    Ensures-step _ (depend_on_one jobid other d) _ λ d' e.
      let t' = Ensures-ok _ _ (depend_on_one-Tells jobid id other d n earlier ne.0 t) e in
      Ensures-mono (depend_loop jobid deps d')
        (depend_loop-Tells jobid id deps d' _ earlier ne.1 t')
        λ d'' k. subst (Tells jobid id d''.server) (ground arith) k
