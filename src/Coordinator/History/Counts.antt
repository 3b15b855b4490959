-- ===== src/Coordinator/History/Counts.antt =====
-- core/raddi_coordinator.cpp: the numbers in a history count the entries between its times.
use raddi.Base.{
  ℕ, suc, ◌+◌, ◌-◌, ◌%◌, ◌/◌, ◌≤◌, ◌<◌, true, false, ◌&&◌, List, [], ◌∷◌, length, drop, ltb, leb,
  if◌then◌else◌, ◌≡◌, refl, sym, subst, ap, ◌∙◌, ◌⊎◌, arith, inl, inr, Bool-cases,
}
use raddi.Time.{u32, u64, add32, sub32, older}
use raddi.Coordinator.History.{Group, Gathered, begin, add_number, accumulate, gather, closed}

-- The entries of the shards with a base from `lo` on and before `hi`.
unfoldable pub total : ℕ → ℕ → List (ℕ × ℕ) → ℕ
total lo hi [] = 0
total lo hi ((t, n) ∷ rest) = (if leb lo t && ltb t hi then n else 0) + total lo hi rest

-- Are the bases in ascending order, from `lo` on and in 32 bits?
abbrev pub IsAscending : ℕ → List (ℕ × ℕ) → Type 0
IsAscending lo [] = Unit
IsAscending lo ((t, n) ∷ rest) = (lo ≤ t) × (t < u32) × IsAscending (suc t) rest

-- A number that counts, less one, as a `std::size_t`.
abbrev pub less_one : ℕ → ℕ
less_one n = (n + (u64 - 1)) % u64

-- Closed groups, from the last, each up to the start of the one after it: they count what `f` counts.
abbrev pub Counted : (ℕ → ℕ → ℕ) → ℕ → List Group → Type 0
Counted f hi [] = Unit
Counted f hi (g ∷ gs) = (g.start < hi) × (g.number ≡ less_one (f g.start hi)) × Counted f g.start gs

-- The counts with one more shard, and with more of them.
abbrev pub with_shard : ℕ → ℕ → (ℕ → ℕ → ℕ) → ℕ → ℕ → ℕ
with_shard t n f lo hi = f lo hi + (if leb lo t && ltb t hi then n else 0)

Counted-along :
    (f f' : ℕ → ℕ → ℕ) (hi : ℕ) (gs : List Group)
    → ((lo m : ℕ) → m ≤ hi → f lo m ≡ f' lo m)
    → Counted f hi gs
    → Counted f' hi gs
Counted-along f f' hi [] e c = tt
Counted-along f f' hi (g ∷ gs) e c = (
  c.0,
  c.1 ∙ ap less_one (e g.start hi (omega arith)),
  Counted-along f f' g.start gs (λ lo m l. e lo m (omega (arith, l, c.0))) c.2,
)

Counted-with_shard :
    (t n : ℕ) (f : ℕ → ℕ → ℕ) (hi : ℕ) (gs : List Group)
    → hi ≤ t
    → Counted f hi gs
    → Counted (with_shard t n f) hi gs
Counted-with_shard t n f hi gs l c =
    Counted-along f (with_shard t n f) hi gs (λ lo m h. ground (arith, h, l)) c

-- The state between two shards: the newest group is open, and counts all that came since its start.
pub record IsOpen (f : ℕ → ℕ → ℕ) (next : ℕ) (g : Group) (gs : List Group) (h : Gathered)
    : Type 0 where
  pub groups : h.groups ≡ g ∷ gs
  pub threshold : h.threshold ≡ g.start
  pub length : h.length ≡ length gs
  pub before : g.start < next
  pub number : (hi : ℕ) → next ≤ hi → g.number ≡ less_one (f g.start hi)
  pub counted : Counted f g.start gs
  pub fresh : (lo hi : ℕ) → next ≤ lo → f lo hi ≡ 0
  pub within : next ≤ u32

less_one_add : (a n : ℕ) → (less_one a + n) % u64 ≡ less_one (a + n)
less_one_add a n = omega arith

joined :
    (t n next : ℕ) (f : ℕ → ℕ → ℕ) (g : Group) (gs : List Group) (h : Gathered)
    → next ≤ t
    → t < u32
    → IsOpen f next g gs h
    → IsOpen
        (with_shard t n f)
        (suc t)
        (record g { number = (g.number + n) % u64 })
        gs
        (record h { groups = add_number n h.groups })
unfolding add_number
joined t n next f g gs h l w o = record {
  groups = rw (o.groups) refl;
  threshold = o.threshold;
  length = o.length;
  before = omega (arith, o.before, l);
  number = λ hi m.
      let more : with_shard t n f g.start hi ≡ f g.start hi + n = ground (arith, o.before, l, m) in
      let was = o.number hi (omega (arith, l, m)) in omega (arith, more, was);
  counted = Counted-with_shard t n f g.start gs (omega (arith, o.before, l)) o.counted;
  fresh = λ lo hi m. ground (arith, m, l, o.fresh lo hi (omega (arith, m, l)));
  within = omega (arith, w);
}

-- The groups that a full or a new history closes.
closing :
    (t n next : ℕ) (f : ℕ → ℕ → ℕ) (g : Group) (gs : List Group) (h : Gathered)
    → next ≤ t
    → IsOpen f next g gs h
    → Counted (with_shard t n f) t (g ∷ gs)
closing t n next f g gs h l o =
    let same : with_shard t n f g.start t ≡ f g.start t = ground (arith) in
    (
      omega (arith, o.before, l),
      o.number t l ∙ ap less_one (sym same),
      Counted-with_shard t n f g.start gs (omega (arith, o.before, l)) o.counted,
    )

-- A history as it is sent: its groups count up to its threshold.
pub record IsTallied (f : ℕ → ℕ → ℕ) (h : Gathered) : Type 0 where
  pub counted : Counted f h.threshold (closed h)
  pub within : h.threshold < u32

drop_open :
    (g : Group) (gs xs : List Group) (n : ℕ)
    → xs ≡ g ∷ gs
    → n ≡ length gs
    → drop (length xs - n) xs ≡ gs
drop_open g gs xs n e l =
    let one : suc (length gs) - length gs ≡ 1 = omega arith in rw (e, l, one) refl

drop_full : (xs : List Group) (n : ℕ) → n ≡ length xs → drop (length xs - n) xs ≡ xs
drop_full xs n l = let none_left : length xs - length xs ≡ 0 = omega arith in rw (l, none_left) refl

tallied :
    (f : ℕ → ℕ → ℕ) (h : Gathered) (t : ℕ) (gs : List Group)
    → h.threshold ≡ t
    → closed h ≡ gs
    → Counted f t gs
    → t < u32
    → IsTallied f h
tallied f h t gs e k c w = record {
  within = rw e w;
  counted = subst (λ x. Counted f x (closed h)) (sym e) (subst (λ x. Counted f t x) (sym k) c);
}

total_past :
    (lo hi t : ℕ) (rest : List (ℕ × ℕ)) → hi ≤ t → IsAscending t rest → total lo hi rest ≡ 0
unfolding total
total_past lo hi t [] l a = refl
total_past lo hi t ((u, n) ∷ rest) l a =
    ground (arith, l, a.0, total_past lo hi (suc u) rest (omega (arith, l, a.0)) a.2)

-- A group that begins.
opened :
    (t n next : ℕ) (f : ℕ → ℕ → ℕ) (g : Group) (gs : List Group) (h : Gathered)
    → next ≤ t
    → t < u32
    → IsOpen f next g gs h
    → IsOpen
        (with_shard t n f)
        (suc t)
        (record { start = t; number = less_one n })
        (g ∷ gs)
        (record {
          threshold = t;
          groups = record { start = t; number = less_one n } ∷ h.groups;
          length = suc h.length;
        })
opened t n next f g gs h l w o = record {
  groups = ap (λ x. record { start = t; number = less_one n } ∷ x) o.groups;
  threshold = refl;
  length = ap suc o.length;
  before = omega arith;
  number = λ hi m.
      let new : with_shard t n f t hi ≡ n = ground (arith, m, o.fresh t hi l) in
      sym (ap less_one new);
  counted = closing t n next f g gs h l o;
  fresh = λ lo hi m. ground (arith, m, l, o.fresh lo hi (omega (arith, m, l)));
  within = omega (arith, w);
}

begin_begun :
    (t : ℕ) (g : Group) (gs : List Group) (h : Gathered) → h.groups ≡ g ∷ gs → begin t h ≡ h
unfolding begin
begin_begun t g gs h e = ground (arith, e)

abbrev pub limit : ℕ → ℕ → Gathered → ℕ
limit scale now h = add32 h.threshold (sub32 now h.threshold / scale + 1)

abbrev pub join : ℕ → Gathered → Gathered
join n h = record h { groups = add_number n h.groups }

abbrev begin_group : ℕ → ℕ → Gathered → Gathered
begin_group t n h = record {
  threshold = t;
  groups = record { start = t; number = less_one n } ∷ h.groups;
  length = suc h.length;
}

abbrev stop : ℕ → Gathered → Gathered
stop t h = record h { threshold = t; length = suc h.length }

accumulate_cases :
    (scale max_length now t n : ℕ) (h : Gathered)
    → begin t h ≡ h
    → (accumulate scale max_length now t n h ≡ (join n h, true))
      ⊎ ((accumulate scale max_length now t n h ≡ (begin_group t n h, true))
          ⊎ (accumulate scale max_length now t n h ≡ (stop t h, false)))
unfolding accumulate
accumulate_cases scale max_length now t n h e = elim (Bool-cases (older t (limit scale now h))) [
  | inl j ↦ inl (rw (e, j, accumulate) refl)
  | inr j ↦ elim (Bool-cases (ltb (suc h.length) max_length)) [
    | inl m ↦ inr (inl (rw (e, j, m, accumulate) refl))
    | inr m ↦ inr (inr (rw (e, j, m, accumulate) refl))
  ]
]

pub IsTallied-along :
    (f f' : ℕ → ℕ → ℕ) (h : Gathered)
    → ((lo hi : ℕ) → f lo hi ≡ f' lo hi)
    → IsTallied f h
    → IsTallied f' h
IsTallied-along f f' h e t = record {
  counted = Counted-along f f' h.threshold (closed h) (λ lo m l. e lo m) t.counted;
  within = t.within;
}

stop-IsTallied :
    (t n next : ℕ) (f : ℕ → ℕ → ℕ) (g : Group) (gs : List Group) (h : Gathered)
    (rest : List (ℕ × ℕ))
    → next ≤ t
    → t < u32
    → IsAscending (suc t) rest
    → IsOpen f next g gs h
    → IsTallied (λ lo hi. f lo hi + total lo hi ((t, n) ∷ rest)) (stop t h)
unfolding total
stop-IsTallied t n next f g gs h rest l w a o =
    let full : suc h.length ≡ length h.groups =
      ap suc o.length ∙ sym (ap (λ x. length x) o.groups) in
    tallied (λ lo hi. f lo hi + total lo hi ((t, n) ∷ rest)) (stop t h) t (g ∷ gs) refl
      (drop_full h.groups (suc h.length) full ∙ o.groups)
      (Counted-along (with_shard t n f) (λ lo hi. f lo hi + total lo hi ((t, n) ∷ rest)) t (g ∷ gs)
        (λ lo m k. omega (arith, total_past lo m (suc t) rest (omega (arith, k)) a))
        (closing t n next f g gs h l o))
      w

pub gather-IsTallied :
    (scale max_length now : ℕ) (rest : List (ℕ × ℕ)) (next : ℕ) (f : ℕ → ℕ → ℕ) (g : Group)
    (gs : List Group) (h : Gathered)
    → IsAscending next rest
    → IsOpen f next g gs h
    → IsTallied (λ lo hi. f lo hi + total lo hi rest) (gather scale max_length now rest h)
unfolding gather total
gather-IsTallied scale max_length now [] next f g gs h a o =
    tallied (λ lo hi. f lo hi + total lo hi []) h g.start gs o.threshold
      (drop_open g gs h.groups h.length o.groups o.length)
      (Counted-along f (λ lo hi. f lo hi + total lo hi []) g.start gs (λ lo m l. omega arith)
        o.counted)
      (omega (arith, o.before, o.within))
gather-IsTallied scale max_length now ((t, n) ∷ rest) next f g gs h a o =
    elim (accumulate_cases scale max_length now t n h (begin_begun t g gs h o.groups)) [
      | inl e ↦
          rw (e, gather)
            (IsTallied-along (λ lo hi. with_shard t n f lo hi + total lo hi rest)
              (λ lo hi. f lo hi + total lo hi ((t, n) ∷ rest))
              (gather scale max_length now rest (join n h)) (λ lo hi. omega arith)
              (gather-IsTallied scale max_length now rest (suc t) (with_shard t n f)
                (record g { number = (g.number + n) % u64 }) gs (join n h) a.2
                (joined t n next f g gs h a.0 a.1 o)))
      | inr (inl e) ↦
          rw (e, gather)
            (IsTallied-along (λ lo hi. with_shard t n f lo hi + total lo hi rest)
              (λ lo hi. f lo hi + total lo hi ((t, n) ∷ rest))
              (gather scale max_length now rest (begin_group t n h)) (λ lo hi. omega arith)
              (gather-IsTallied scale max_length now rest (suc t) (with_shard t n f)
                (record { start = t; number = less_one n }) (g ∷ gs) (begin_group t n h) a.2
                (opened t n next f g gs h a.0 a.1 o)))
      | inr (inr e) ↦ rw (e, gather) (stop-IsTallied t n next f g gs h rest a.0 a.1 a.2 o)
    ]
