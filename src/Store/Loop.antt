-- ===== src/Store/Loop.antt =====
-- The loops of the stores over their entries, `for (const auto& entry : _getEntries())`, whose bodies
-- may change the entry in place (store/src/store).
use molar_tracker.Base.{
  Option, ℕ, zero, suc, ◌≡◌, refl, sym, ap, ◌∙◌, subst, none, some, List, [], ◌∷◌, ◌++◌, Result,
  err, ok, get_elem?, length,
}
use molar_tracker.Common.Exception.{Exception}
use molar_tracker.Store.BaseStore.{StoreResult, Entry, BaseStore}
use mathlib.Core.List.{append_assoc, append-nil}

-- An exception, or a write through an invalid pointer.
pub data Failure : Type 0 where
  thrown : Exception → Failure
  invalid_write : Failure

-- How a call ended, and the store and the database after it.
abbrev pub Outcome : Type 0 → Type 0 → Type 0
Outcome T W = Result Failure (Unit {0}) × BaseStore T × W

abbrev pub and_next : {T W : Type 0} → Outcome T W → (BaseStore T → W → Outcome T W) → Outcome T W
and_next (err e, s, w) next = (err e, s, w)
and_next (ok u, s, w) next = next s w

-- `_commitEntry`, whose result is not used.
abbrev pub after_commit :
    {T W : Type 0} → Option (StoreResult × BaseStore T) → BaseStore T → W → Outcome T W
after_commit none s w = (err Failure.invalid_write, s, w)
after_commit (some (r, s₁)) s w = (ok tt, s₁, w)

-- `_commitEntry`, where `unless_ok` is how the call ends if the result is not `Ok`.
abbrev pub settled :
    {T W : Type 0}
    → Result Failure (Unit {0})
    → Option (StoreResult × BaseStore T)
    → BaseStore T
    → W
    → Outcome T W
settled unless_ok none s w = (err Failure.invalid_write, s, w)
settled unless_ok (some (StoreResult.store_ok, s₁)) s w = (ok tt, s₁, w)
settled unless_ok (some (StoreResult.not_found, s₁)) s w = (unless_ok, s₁, w)

module _ {T W : Type 0} (body : Entry T → BaseStore T → W → Outcome T W) where
  -- `n` rounds from an index on; an entry is read when its round begins.
  unfoldable pub for_each : (n i : ℕ) → BaseStore T → W → Outcome T W
  for_each zero i s w = (ok tt, s, w)
  for_each (suc n) i s w = elim (get_elem? s.entries i) [
    | none ↦ (ok tt, s, w)
    | some e ↦ and_next (body e s w) (for_each n (suc i))
  ]

  unfoldable pub for_each_entry : BaseStore T → W → Outcome T W
  for_each_entry s w = for_each (length s.entries) 0 s w

get_elem?-middle :
    {A : Type 0} (xs ys : List A) (x : A) → get_elem? (xs ++ x ∷ ys) (length xs) ≡ some x
get_elem?-middle [] ys x = refl
get_elem?-middle (y ∷ xs) ys x = get_elem?-middle xs ys x

length-one_more : {A : Type 0} (xs : List A) (x : A) → length (xs ++ x ∷ []) ≡ suc (length xs)
length-one_more [] x = refl
length-one_more (y ∷ xs) x = ap suc (length-one_more xs x)

-- How a call ended, the entries and the database after it: what is seen of it but the notifications.
abbrev pub Passed : Type 0 → Type 0 → Type 0
Passed T W = Result Failure (Unit {0}) × List (Entry T) × W

abbrev pub view : {T W : Type 0} → Outcome T W → Passed T W
view o = (o.0, o.1.entries, o.2)

-- A pass over a list of entries, each of which is replaced or stops the pass.
abbrev pub Step : Type 0 → Type 0 → Type 0
Step T W = Entry T → W → Result Failure (Entry T) × W

abbrev pub one_step :
    {T W : Type 0}
    → Entry T
    → List (Entry T)
    → Result Failure (Entry T) × W
    → (W → Passed T W)
    → Passed T W
one_step e es (err x, w) next = (err x, e ∷ es, w)
one_step e es (ok d, w) next = let r = next w in (r.0, d ∷ r.1, r.2)

unfoldable pub walk : {T W : Type 0} → Step T W → List (Entry T) → W → Passed T W
walk f [] w = (ok tt, [], w)
walk f (e ∷ es) w = one_step e es (f e w) (walk f es)

-- One pass after another.
abbrev pub and_walk : {T W : Type 0} → Passed T W → (List (Entry T) → W → Passed T W) → Passed T W
and_walk (err x, es, w) next = (err x, es, w)
and_walk (ok u, es, w) next = next es w

-- What a round does to an entry between others is what the step says, and it keeps `P`.
abbrev pub Follows :
    {T W : Type 0}
    → (List (Entry T) → List (Entry T) → Type 0)
    → (before after : List (Entry T)) → Entry T
    → Outcome T W
    → Result Failure (Entry T) × W
    → Type 0
Follows P before after e o (err x, w) = view o ≡ (err x, before ++ e ∷ after, w)
Follows P before after e o (ok d, w) =
    (view o ≡ (ok tt, before ++ d ∷ after, w)) × P (before ++ d ∷ []) after

abbrev pub behind : {T W : Type 0} → List (Entry T) → Passed T W → Passed T W
behind before (r, es, w) = (r, before ++ es, w)

module _ {T W : Type 0} (body : Entry T → BaseStore T → W → Outcome T W) (f : Step T W)
    (P : List (Entry T) → List (Entry T) → Type 0)
    (round : (e : Entry T) (before after : List (Entry T)) (s : BaseStore T) (w : W)
      → s.entries ≡ before ++ e ∷ after
      → P before (e ∷ after)
      → Follows P before after e (body e s w) (f e w)) where
  failed_not_ok : {x : Failure} → Path (Result Failure (Unit {0})) (err x) (ok tt) → ⊥
  failed_not_ok h = cc

  abbrev Tracks : Outcome T W → Passed T W → Type 0
  Tracks o p = (view o ≡ p) × (o.0 ≡ ok tt → P o.1.entries [])

  abbrev Rest : List (Entry T) → List (Entry T) → Type 0
  Rest before rest =
      (s : BaseStore T) (w : W)
      → s.entries ≡ before ++ rest
      → P before rest
      → Tracks (for_each body (length rest) (length before) s w) (behind before (walk f rest w))

  next_round :
      (e : Entry T) (before rest : List (Entry T)) (o : Outcome T W)
      (r : Result Failure (Entry T) × W)
      → Follows P before rest e o r
      → ((d : Entry T) → Rest (before ++ d ∷ []) rest)
      → Tracks
          (and_next o (for_each body (length rest) (suc (length before))))
          (behind before (one_step e rest r (walk f rest)))
  next_round e before rest (err y, s, v) (err x, u) q k = (q, λ h. absurd (failed_not_ok h))
  next_round e before rest (ok y, s, v) (err x, u) q k =
      absurd (failed_not_ok (sym (ap (λ t. t.0) q)))
  next_round e before rest (err y, s, v) (ok d, u) q k = absurd (failed_not_ok (ap (λ t. t.0) q.0))
  next_round e before rest (ok y, s, v) (ok d, u) q k =
      let more =
        subst
          (λ n.
            Tracks (for_each body (length rest) n s v) (behind (before ++ d ∷ []) (walk f rest v)))
          (length-one_more before d)
          (k d s v (ap (λ t. t.1) q.0 ∙ sym (append_assoc before (d ∷ []) rest)) q.1) in
      (
        more.0
            ∙ ap (λ w. behind (before ++ d ∷ []) (walk f rest w)) (ap (λ t. t.2) q.0)
            ∙ ap (λ es. ((walk f rest u).0, es, (walk f rest u).2))
                (append_assoc before (d ∷ []) (walk f rest u).1),
        more.1,
      )

  for_each-walk : (rest before : List (Entry T)) → Rest before rest
  unfolding for_each walk
  for_each-walk [] before s w h p =
      (ap (λ es. (ok tt, es, w)) h, λ e. subst (λ es. P es []) (sym (h ∙ append-nil before)) p)
  for_each-walk (e ∷ rest) before s w h p =
      let read : get_elem? s.entries (length before) ≡ some e =
        ap (λ es. get_elem? es (length before)) h ∙ get_elem?-middle before rest e in
      rw (for_each, read)
        (next_round e before rest (body e s w) (f e w) (round e before rest s w h p)
          (λ d. for_each-walk rest (before ++ d ∷ [])))

  -- A loop over the entries of a store, which finds and writes them by their identifiers, is a pass over
  -- the list of them, if each round is a step of it.
  pub for_each_entry-walk :
      (s : BaseStore T) (w : W)
      → P [] s.entries
      → view (for_each_entry body s w) ≡ walk f s.entries w
  unfolding for_each_entry
  for_each_entry-walk s w p = (for_each-walk s.entries [] s w refl p).0

  -- If the loop ends without a failure, then what every round keeps holds at its end.
  pub for_each_entry-keeps :
      (s : BaseStore T) (w : W)
      → P [] s.entries
      → (for_each_entry body s w).0 ≡ ok tt
      → P (for_each_entry body s w).1.entries []
  unfolding for_each_entry
  for_each_entry-keeps s w p = (for_each-walk s.entries [] s w refl p).1

-- One loop after another is one pass after another.
pub and_next-and_walk :
    {T W : Type 0} (o : Outcome T W) (p : Passed T W) (next : BaseStore T → W → Outcome T W)
    (g : List (Entry T) → W → Passed T W)
    → view o ≡ p
    → ((s : BaseStore T) (w : W) → o ≡ (ok tt, s, w) → view (next s w) ≡ g s.entries w)
    → view (and_next o next) ≡ and_walk p g
and_next-and_walk (err x, s, w) p next g q k =
    subst (λ p. (err x, s.entries, w) ≡ and_walk p g) q refl
and_next-and_walk (ok u, s, w) p next g q k =
    subst (λ p. view (next s w) ≡ and_walk p g) q (k s w refl)
