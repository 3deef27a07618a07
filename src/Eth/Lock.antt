-- ===== src/Eth/Lock.antt =====
-- SingletonMixin.instance (utils/eth/singleton_lock.py): any number of threads ask for the one lock of
-- the node's account at the same time.
use qsp_protocol_node.Prelude.{
  ℕ, ◌+◌, ◌≤◌, ◌≡◌, ◌≢◌, refl, Bool, true, false, Option, none, some, arith, if◌then◌else◌, ◌==◌,
  Bool-cases, inl, inr, sym, subst,
}

-- Where a thread is: before its first test, between the tests without the class's lock, between them
-- with it, after it has set the instance, or at its return.
pub data Place : Type 0 where
  before outside inside created returned : Place

-- How many instances and how many locks the class has made, and the holder of `__singleton_lock`.
pub record State : Type 0 where
  pub place : ℕ → Place
  pub instances : ℕ
  pub locks : ℕ
  pub holder : Option ℕ

abbrev pub move : ℕ → Place → (ℕ → Place) → ℕ → Place
move t p place u = if u == t then p else place u

-- One thread goes on: each test reads the attribute, and each assignment sets one.
pub data Step : State → State → Type 0 where
  found :
      {s : State} (t : ℕ)
      → s.place t ≡ before
      → s.instances ≢ 0
      → Step s (record s { place = move t returned s.place })
  missed :
      {s : State} (t : ℕ)
      → s.place t ≡ before
      → s.instances ≡ 0
      → Step s (record s { place = move t outside s.place })
  acquire :
      {s : State} (t : ℕ)
      → s.place t ≡ outside
      → s.holder ≡ none
      → Step s (record s { place = move t inside s.place; holder = some t })
  found_inside :
      {s : State} (t : ℕ)
      → s.place t ≡ inside
      → s.instances ≢ 0
      → Step s (record s { place = move t returned s.place; holder = none })
  create :
      {s : State} (t : ℕ)
      → s.place t ≡ inside
      → s.instances ≡ 0
      → Step s (record s { place = move t created s.place; instances = s.instances + 1 })
  set_lock :
      {s : State} (t : ℕ)
      → s.place t ≡ created
      → Step s (record s { place = move t returned s.place; locks = s.locks + 1; holder = none })

abbrev pub fresh : State
fresh = record { place = λ t. before; instances = 0; locks = 0; holder = none }

pub data Reach : State → Type 0 where
  here : Reach fresh
  next : {s s' : State} → Reach s → Step s s' → Reach s'

abbrev pub holds : Place → Bool
holds inside = true
holds created = true
holds _ = false

-- What is known of the state while a thread is at a place.
abbrev pub Known : Place → ℕ → ℕ → Type 0
Known inside instances locks = instances ≡ locks
Known created instances locks = (instances ≡ 1) × (locks ≡ 0)
Known returned instances locks = instances ≡ 1
Known _ instances locks = Unit

record Inv (s : State) : Type 0 where
  owner : (t : ℕ) → holds (s.place t) ≡ true → s.holder ≡ some t
  known : (t : ℕ) → Known (s.place t) s.instances s.locks
  free : s.holder ≡ none → s.instances ≡ s.locks
  one : s.instances ≤ 1
  few : s.locks ≤ s.instances

-- A property of all threads after one has moved.
moved :
    (P : ℕ → Place → Type 0) (t : ℕ) (p : Place) (place : ℕ → Place)
    → P t p
    → ((u : ℕ) → u ≢ t → P u (place u))
    → (u : ℕ) → P u (move t p place u)
moved P t p place at_t others u = elim (Bool-cases (u == t)) [
  | inl e ↦ let same : u ≡ t = ground arith in rw e (subst (λ (n : ℕ). P n p) (sym same) at_t)
  | inr e ↦ rw e (others u (λ q. ground arith))
]

found-Inv :
    (s : State) (t : ℕ)
    → Inv s
    → s.place t ≡ before
    → s.instances ≢ 0
    → Inv (record s { place = move t returned s.place })
found-Inv s t h at some_instance = record {
  owner =
      moved (λ u p. holds p ≡ true → s.holder ≡ some u) t returned s.place (λ e. cc)
        (λ u n. h.owner u);
  known =
      moved (λ u p. Known p s.instances s.locks) t returned s.place (omega (arith, h.one))
        (λ u n. h.known u);
  free = h.free;
  one = h.one;
  few = h.few;
}

-- Two threads that hold the class's lock are one.
sole : (s : State) → Inv s → (t u : ℕ) → holds (s.place t) ≡ true → holds (s.place u) ≡ true → u ≡ t
sole s h t u at_t at_u = let e = h.owner t at_t in let e' = h.owner u at_u in cc

-- Of a thread that does not hold it only its return is known.
Known-from :
    (p : Place) (i l j k : ℕ) → holds p ≡ false → (i ≡ 1 → j ≡ 1) → Known p i l → Known p j k
Known-from before i l j k n keep h = tt
Known-from outside i l j k n keep h = tt
Known-from inside i l j k n keep h = cc
Known-from created i l j k n keep h = cc
Known-from returned i l j k n keep h = keep h

-- What the others know after the holder `t` has moved.
others-Known :
    (s : State)
    → Inv s
    → (t : ℕ) → holds (s.place t) ≡ true
    → (j k : ℕ) → (s.instances ≡ 1 → j ≡ 1)
    → (u : ℕ) → u ≢ t
    → Known (s.place u) j k
others-Known s h t at_t j k keep u n = elim (Bool-cases (holds (s.place u))) [
  | inl e ↦ absurd (n (sole s h t u at_t e))
  | inr e ↦ Known-from (s.place u) s.instances s.locks j k e keep (h.known u)
]

missed-Inv :
    (s : State) (t : ℕ)
    → Inv s
    → s.place t ≡ before
    → Inv (record s { place = move t outside s.place })
missed-Inv s t h at = record {
  owner =
      moved (λ u p. holds p ≡ true → s.holder ≡ some u) t outside s.place (λ e. cc)
        (λ u n. h.owner u);
  known = moved (λ u p. Known p s.instances s.locks) t outside s.place tt (λ u n. h.known u);
  free = h.free;
  one = h.one;
  few = h.few;
}

acquire-Inv :
    (s : State) (t : ℕ)
    → Inv s
    → s.holder ≡ none
    → Inv (record s { place = move t inside s.place; holder = some t })
acquire-Inv s t h free = record {
  owner =
      moved (λ u p. holds p ≡ true → some t ≡ some u) t inside s.place (λ e. refl)
        (λ u n e. absurd (let held = h.owner u e in cc));
  known =
      moved (λ u p. Known p s.instances s.locks) t inside s.place (h.free free) (λ u n. h.known u);
  free = λ e. cc;
  one = h.one;
  few = h.few;
}

-- The holder returns, and gives the class's lock back.
release-Inv :
    (s : State) (t locks : ℕ)
    → Inv s
    → holds (s.place t) ≡ true
    → s.instances ≡ 1
    → s.instances ≡ locks
    → Inv (record s { place = move t returned s.place; locks = locks; holder = none })
release-Inv s t locks h at some_instance same = record {
  owner =
      moved (λ u p. holds p ≡ true → none ≡ some u) t returned s.place (λ e. cc)
        (λ u n e. absurd (n (sole s h t u at e)));
  known =
      moved (λ u p. Known p s.instances locks) t returned s.place some_instance
        (others-Known s h t at s.instances locks (λ e. e));
  free = λ e. same;
  one = h.one;
  few = omega arith;
}

create-Inv :
    (s : State) (t : ℕ)
    → Inv s
    → s.place t ≡ inside
    → s.instances ≡ 0
    → Inv (record s { place = move t created s.place; instances = s.instances + 1 })
create-Inv s t h at no_instance =
    let held : holds (s.place t) ≡ true = rw at refl in
    let owned = h.owner t held in
    let same : s.instances ≡ s.locks = subst (λ p. Known p s.instances s.locks) at (h.known t) in
    record {
      owner =
          moved (λ u p. holds p ≡ true → s.holder ≡ some u) t created s.place (λ e. owned)
            (λ u n. h.owner u);
      known =
          moved (λ u p. Known p (s.instances + 1) s.locks) t created s.place
            (omega arith, omega arith)
            (others-Known s h t held (s.instances + 1) s.locks (λ e. omega arith));
      free = λ e. cc;
      one = omega arith;
      few = omega (arith, h.few);
    }

Step-Inv : {s s' : State} → Step s s' → Inv s → Inv s'
Step-Inv (found {s} t at i) h = found-Inv s t h at i
Step-Inv (missed {s} t at i) h = missed-Inv s t h at
Step-Inv (acquire {s} t at free) h = acquire-Inv s t h free
Step-Inv (found_inside {s} t at i) h =
    let same : s.instances ≡ s.locks = subst (λ p. Known p s.instances s.locks) at (h.known t) in
    release-Inv s t s.locks h (rw at refl) (omega (arith, h.one)) same
Step-Inv (create {s} t at i) h = create-Inv s t h at i
Step-Inv (set_lock {s} t at) h =
    let (one, zero_locks) : (s.instances ≡ 1) × (s.locks ≡ 0) =
      subst (λ p. Known p s.instances s.locks) at (h.known t) in
    release-Inv s t (s.locks + 1) h (rw at refl) one (omega arith)

Reach-Inv : {s : State} → Reach s → Inv s
Reach-Inv here = record {
  owner = λ t e. cc;
  known = λ t. tt;
  free = λ e. refl;
  one = omega arith;
  few = omega arith;
}
Reach-Inv (next r step) = Step-Inv step (Reach-Inv r)

-- However many threads ask for the lock at the same time, at most one instance and one lock are ever
-- made, no two threads make them at once, a thread that returns returns the one instance, and when no
-- thread is making it, the instance has its lock.
pub instance_once :
    (s : State)
    → Reach s
    → (s.instances ≤ 1)
      × (s.locks ≤ 1)
      × ((t u : ℕ) → holds (s.place t) ≡ true → holds (s.place u) ≡ true → u ≡ t)
      × ((t : ℕ) → s.place t ≡ returned → s.instances ≡ 1)
      × (s.holder ≡ none → s.instances ≡ s.locks)
instance_once s r =
    let h = Reach-Inv r in
    (
      h.one,
      omega (arith, h.one, h.few),
      sole s h,
      λ t at. subst (λ p. Known p s.instances s.locks) at (h.known t),
      h.free,
    )
