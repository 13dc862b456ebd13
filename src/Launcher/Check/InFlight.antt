-- ===== src/Launcher/Check/InFlight.antt =====
-- The in-flight time of a project (runner/src/project.rs) against what the running tasks of a
-- launcher (runner/src/launcher.rs) have been charged.
use qscheduler.Base.{
  ℕ, ◌+◌, ◌-◌, ◌≡◌, refl, inl, inr, none, some, [], ◌∷◌, Map, get, insert, get-insert, total,
  weight, max, nat_eq, nat_eq_iff, nat_key, if◌then◌else◌, Option-cases, >>=-eq-some, ◌∙◌,
  Bool-cases, arith,
}
use qscheduler.Project.{Project, ProjectMap, add_in_flight, change_project}
use qscheduler.Launcher.{RunningTask}
use qscheduler.Launcher.Check.{charge, charge_all, capped}

unfoldable pub in_flight_of : ProjectMap → ℕ → ℕ
in_flight_of projects p = weight (λ q. q.in_flight) (get p projects.projects)

unfoldable pub consumed_of : ProjectMap → ℕ → ℕ
consumed_of projects p = weight (λ q. q.consumed) (get p projects.projects)

-- What a running task has added to the in-flight time of the project `p`.
abbrev pub charged_to : ℕ → RunningTask → ℕ
charged_to p rt = elim rt.project_id [ none ↦ 0 | some id ↦ if nat_eq id p then rt.charged else 0 ]

-- What is charged to projects follows what the running tasks have been charged; nothing is
-- consumed.
pub record Charges (projects projects' : ProjectMap) (before after : ℕ → ℕ) : Type 0 where
  pub in_flight : (p : ℕ) → in_flight_of projects' p + before p ≡ in_flight_of projects p + after p
  pub consumed : (p : ℕ) → consumed_of projects' p ≡ consumed_of projects p

charge-Charges :
    (now : ℕ) (rt rt' : RunningTask) (projects projects' : ProjectMap)
    → charge now rt projects ≡ some (rt', projects')
    → Charges projects projects' (λ p. charged_to p rt) (λ p. charged_to p rt')
unfolding charge change_project add_in_flight in_flight_of consumed_of
charge-Charges now rt rt' projects projects' h = elim (Option-cases rt.project_id) [
  | inl e ↦ record { in_flight = λ p. ground arith; consumed = λ p. ground arith }
  | inr (id, e) ↦ elim (Option-cases (get id projects.projects)) [
    | inl missing ↦ absurd (ground arith)
    | inr (q, found) ↦
        let q' : Project = add_in_flight q (capped now rt - rt.charged) in
        record {
          in_flight = λ p. ground (arith, get-insert id p q' projects.projects, nat_eq_iff id p);
          consumed = λ p. ground (arith, get-insert id p q' projects.projects, nat_eq_iff id p);
        }
  ]
]

charge_all-Charges :
    (now : ℕ) (running running' : Map ℕ RunningTask) (projects projects' : ProjectMap)
    → charge_all now running projects ≡ some (running', projects')
    → Charges projects projects'
        (λ p. total (charged_to p) running)
        (λ p. total (charged_to p) running')
unfolding charge_all total
charge_all-Charges now [] running' projects projects' h = record {
  in_flight = λ p. ground arith;
  consumed = λ p. ground arith;
}
charge_all-Charges now ((id, rt) ∷ running) running' projects projects' h =
    let ((rt', charged), first, rest) = >>=-eq-some (charge now rt projects) _ h in
    let ((others, last), e, made) = >>=-eq-some (charge_all now running charged) _ rest in
    let a = charge-Charges now rt rt' projects charged first in
    let b = charge_all-Charges now running others charged last e in
    let shape : running' ≡ (id, rt') ∷ others = ground (arith, made) in
    let same : projects' ≡ last = ground (arith, made) in
    rw (shape, same)
      (record {
        in_flight = λ p. omega (arith, a.in_flight p, b.in_flight p);
        consumed = λ p. b.consumed p ∙ a.consumed p;
      })

-- Every project that a running task is charged to is in memory.
abbrev pub AreKnown : ProjectMap → Map ℕ RunningTask → Type 0
AreKnown projects [] = Unit
AreKnown projects ((_, rt) ∷ running) =
    ((id : ℕ) → rt.project_id ≡ some id → (q : Project) × (get id projects.projects ≡ some q))
    × AreKnown projects running

charge-total :
    (now : ℕ) (rt : RunningTask) (projects : ProjectMap)
    → ((id : ℕ) → rt.project_id ≡ some id → (q : Project) × (get id projects.projects ≡ some q))
    → (r : RunningTask × ProjectMap) × (charge now rt projects ≡ some r)
      × ((id : ℕ) (q : Project)
          → get id projects.projects ≡ some q
          → (q' : Project) × (get id r.1.projects ≡ some q'))
unfolding charge change_project
charge-total now rt projects known = elim (Option-cases rt.project_id) [
  | inl e ↦ ((rt, projects), ground arith, λ id q found. (q, found))
  | inr (id, e) ↦
      let (q, found) = known id e in
      let q' : Project = add_in_flight q (capped now rt - rt.charged) in
      (
        (
          record rt { charged = max rt.charged (capped now rt) },
          record projects { projects = insert id q' projects.projects },
        ),
        ground arith,
        λ j r there. elim (Bool-cases (nat_eq id j)) [
          | inl same ↦ (q', ground (arith, get-insert id j q' projects.projects))
          | inr other ↦ (r, ground (arith, get-insert id j q' projects.projects))
        ],
      )
]

AreKnown-mono :
    (projects projects' : ProjectMap) (running : Map ℕ RunningTask)
    → ((id : ℕ) (q : Project)
        → get id projects.projects ≡ some q
        → (q' : Project) × (get id projects'.projects ≡ some q'))
    → AreKnown projects running
    → AreKnown projects' running
AreKnown-mono projects projects' [] more known = tt
AreKnown-mono projects projects' ((_, rt) ∷ running) more known = (
  λ id e. let (q, found) = known.0 id e in more id q found,
  AreKnown-mono projects projects' running more known.1,
)

charge_all-total :
    (now : ℕ) (running : Map ℕ RunningTask) (projects : ProjectMap)
    → AreKnown projects running
    → (r : Map ℕ RunningTask × ProjectMap) × (charge_all now running projects ≡ some r)
unfolding charge_all
charge_all-total now [] projects known = (([], projects), refl)
charge_all-total now ((id, rt) ∷ running) projects known =
    let ((rt', charged), e, more) = charge-total now rt projects known.0 in
    let ((others, last), e') =
      charge_all-total now running charged (AreKnown-mono projects charged running more known.1) in
    (((id, rt') ∷ others, last), rw (e, e'))

-- Charging the running tasks never panics while their projects are in memory, adds to the
-- in-flight time of every project exactly what its tasks are charged in addition, and leaves the
-- reported consumption alone.
pub charge_all-conserves :
    (now : ℕ) (running : Map ℕ RunningTask) (projects : ProjectMap)
    → AreKnown projects running
    → (running' : Map ℕ RunningTask) × (projects' : ProjectMap) × (charge_all now running projects
        ≡ some (running', projects'))
      × Charges projects projects'
          (λ p. total (charged_to p) running)
          (λ p. total (charged_to p) running')
charge_all-conserves now running projects known =
    let ((running', projects'), e) = charge_all-total now running projects known in
    (running', projects', e, charge_all-Charges now running running' projects projects' e)
