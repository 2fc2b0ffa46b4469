-- ===== src/PubSub/Index.antt =====
-- A two-way index: a map from names to the clients that use them, and one back.
use ratatosk.Prelude.{◌≡◌, ◌≢◌, arith, ◌&&◌, not, Option, none, some, List, [], ◌∷◌}
use ratatosk.Prelude.Int.{ℤ, int_eq}
use ratatosk.Prelude.Eq.{Eq, list_eq}
use ratatosk.Prelude.Maps.{Map, lookup, insert, remove, lookup-insert, lookup-remove}
use ratatosk.Prelude.Sets.{
  contains, set_insert, set_remove, set_of, joined, join, leave, put_back, leave_set, joined-join,
  joined-leave,
}
use ratatosk.PubSub.{Bytes, leave_each}

-- A client is in the set of a name exactly if the name is in the set of the client.
abbrev pub TwoWay : Map Bytes (List ℤ) → Map ℤ (List Bytes) → Type 0
TwoWay m w = (name : Bytes) (client : ℤ) → joined name client m ≡ joined client name w

-- No set of the map is empty.
abbrev pub HasNoEmpty : {K V : Type 0} ⦃e : Eq K⦄ → Map K (List V) → Type 0
HasNoEmpty {K} m = (k : K) → lookup k m ≢ some []

set_insert_full : {V : Type 0} ⦃f : Eq V⦄ (v : V) (xs : List V) → set_insert v xs ≢ []
unfolding set_insert
set_insert_full v [] h = ground arith
set_insert_full v (x ∷ xs) h = ground arith

module _ {K V : Type 0} ⦃e : Eq K⦄ where
  insert-HasNoEmpty :
      (k : K) (set : List V) (m : Map K (List V))
      → set ≢ []
      → HasNoEmpty m
      → HasNoEmpty (insert k set m)
  insert-HasNoEmpty k set m ne h j eq = ground (arith, lookup-insert k j set m, h j, ne)

  pub remove-HasNoEmpty : (k : K) (m : Map K (List V)) → HasNoEmpty m → HasNoEmpty (remove k m)
  remove-HasNoEmpty k m h j eq = ground (arith, lookup-remove k j m, h j)

module _ {K V : Type 0} ⦃e : Eq K⦄ ⦃f : Eq V⦄ where
  pub join-HasNoEmpty :
      (k : K) (v : V) (m : Map K (List V)) → HasNoEmpty m → HasNoEmpty (join k v m)
  unfolding join
  join-HasNoEmpty k v m h =
      insert-HasNoEmpty k (set_insert v (set_of k m)) m (set_insert_full v (set_of k m)) h

  put_back-HasNoEmpty :
      (k : K) (set : List V) (m : Map K (List V)) → HasNoEmpty m → HasNoEmpty (put_back k set m)
  put_back-HasNoEmpty k [] m h = remove-HasNoEmpty k m h
  put_back-HasNoEmpty k (x ∷ set) m h = insert-HasNoEmpty k (x ∷ set) m (λ eq. ground arith) h

  leave_set-HasNoEmpty :
      (k : K) (v : V) (m : Map K (List V)) (o : Option (List V))
      → HasNoEmpty m
      → HasNoEmpty (leave_set k v m o)
  leave_set-HasNoEmpty k v m none h = h
  leave_set-HasNoEmpty k v m (some set) h = put_back-HasNoEmpty k (set_remove v set) m h

  pub leave-HasNoEmpty :
      (k : K) (v : V) (m : Map K (List V)) → HasNoEmpty m → HasNoEmpty (leave k v m)
  unfolding leave
  leave-HasNoEmpty k v m h = leave_set-HasNoEmpty k v m (lookup k m) h

join-TwoWay :
    (name : Bytes) (client : ℤ) (m : Map Bytes (List ℤ)) (w : Map ℤ (List Bytes))
    → TwoWay m w
    → TwoWay (join name client m) (join client name w)
join-TwoWay name client m w h n c =
    ground (arith, joined-join name n client c m, joined-join client c name n w, h n c)

leave-TwoWay :
    (name : Bytes) (client : ℤ) (m : Map Bytes (List ℤ)) (w : Map ℤ (List Bytes))
    → TwoWay m w
    → TwoWay (leave name client m) (leave client name w)
leave-TwoWay name client m w h n c =
    ground (arith, joined-leave name n client c m, joined-leave client c name n w, h n c)

-- An index in both directions, with no empty set.
abbrev pub IsIndex : Map Bytes (List ℤ) → Map ℤ (List Bytes) → Type 0
IsIndex m w = TwoWay m w × HasNoEmpty m × HasNoEmpty w

pub join-IsIndex :
    (name : Bytes) (client : ℤ) (m : Map Bytes (List ℤ)) (w : Map ℤ (List Bytes))
    → IsIndex m w
    → IsIndex (join name client m) (join client name w)
join-IsIndex name client m w (t, a, b) = (
  join-TwoWay name client m w t,
  join-HasNoEmpty name client m a,
  join-HasNoEmpty client name w b,
)

pub leave-IsIndex :
    (name : Bytes) (client : ℤ) (m : Map Bytes (List ℤ)) (w : Map ℤ (List Bytes))
    → IsIndex m w
    → IsIndex (leave name client m) (leave client name w)
leave-IsIndex name client m w (t, a, b) = (
  leave-TwoWay name client m w t,
  leave-HasNoEmpty name client m a,
  leave-HasNoEmpty client name w b,
)

leave_each-HasNoEmpty :
    (client : ℤ) (names : List Bytes) (m : Map Bytes (List ℤ))
    → HasNoEmpty m
    → HasNoEmpty (leave_each client names m)
leave_each-HasNoEmpty client [] m h = h
leave_each-HasNoEmpty client (n ∷ names) m h =
    leave_each-HasNoEmpty client names (leave n client m) (leave-HasNoEmpty n client m h)

pub joined-leave_each :
    (client : ℤ) (names : List Bytes) (m : Map Bytes (List ℤ)) (n : Bytes) (c : ℤ)
    → joined n c (leave_each client names m)
      ≡ (not (int_eq.beq client c && contains n names) && joined n c m)
unfolding contains
joined-leave_each client [] m n c = ground arith
joined-leave_each client (x ∷ names) m n c =
    ground
      (arith, joined-leave_each client names (leave x client m) n c, joined-leave x n client c m)

pub joined-remove :
    (client c : ℤ) (w : Map ℤ (List Bytes)) (n : Bytes)
    → joined c n (remove client w) ≡ (not (int_eq.beq client c) && joined c n w)
unfolding contains
joined-remove client c w n = ground (arith, lookup-remove client c w)

-- What `remove_client` does to one index.
pub removed-IsIndex :
    (client : ℤ) (m : Map Bytes (List ℤ)) (w : Map ℤ (List Bytes))
    → IsIndex m w
    → IsIndex (leave_each client (set_of client w) m) (remove client w)
removed-IsIndex client m w (t, a, b) = (
  λ n c. ground (
    arith,
    joined-leave_each client (set_of client w) m n c,
    joined-remove client c w n,
    int_eq.beq_iff client c,
    t n c,
  ),
  leave_each-HasNoEmpty client (set_of client w) m a,
  remove-HasNoEmpty client w b,
)
