-- ===== src/Routing/Peers/Filled.antt =====
-- Which peers a group of a configuration holds.
use rest_diameter_bridge.Routing.RoundTrip.{create_connection_from-print}
use rest_diameter_bridge.Routing.Printed.{IsNamed, print}
use mathlib.Core.Path.{ap₂, subst}
use rest_diameter_bridge.Routing.Tree.{Tree}
use rest_diameter_bridge.Routing.Peers.{
  RoutingConnection, names, place, new, change_group, add_connection, add_all, names_of, root_of,
}
use rest_diameter_bridge.Transport.ConnectionManager.{Connection, host_realm_key}
use rest_diameter_bridge.Transport.Balance.Rotation.{push_connection}
use rest_diameter_bridge.Base.Map.{Map, empty_map, insert, text_key}
use rest_diameter_bridge.Base.Text.{Text, text_eq, text_eq_sound, text_eq_iff}
use rest_diameter_bridge.Base.{
  ℕ, suc, ◌≡◌, List, [], ◌∷◌, Option, none, some, Bool, true, false, if◌then◌else◌, length, ◌+◌,
  ◌<◌, ◌≢◌, ◌||◌, ◌==◌, ==_iff, Bool-cases, length-append, refl, sym, ap, ◌∙◌, inl, inr, ◌++◌,
  append_assoc, append-nil, arith, get_elem?, ◌⊎◌,
}

-- The peers that a key takes.
abbrev pub serves : Text → Connection → Bool
serves k c = text_eq k (host_realm_key c.host c.realm) || text_eq k c.realm

abbrev pub served : Text → List Connection → List Connection
served k [] = []
served k (c ∷ cs) = if serves k c then c ∷ served k cs else served k cs

-- No two keys share a group, and each number is below the next one.
abbrev Separates : ℕ → Map Text ℕ → Type 0
Separates n m =
    ((j k : Text) (i : ℕ) → m j ≡ some i → m k ≡ some i → j ≡ k)
    × ((k : Text) (i : ℕ) → m k ≡ some i → i < n)

insert-Separates :
    (key : Text) (n : ℕ) (m : Map Text ℕ) → Separates n m → Separates (suc n) (insert key n m)
insert-Separates key n m (one, low) = (
  λ j k i hj hk.
      let j_is = text_eq_sound j key in
      let k_is = text_eq_sound k key in
      let j_low = low j i in
      let k_low = low k i in
      let old = one j k i in grind (arith, hj, hk, j_is, k_is, j_low, k_low, old),
  λ k i h. let below = low k i in ground (arith, h, below),
)

place-Separates :
    (ks : List Text) (n : ℕ) (m : Map Text ℕ)
    → Separates n m
    → (top : ℕ) × Separates top (place ks n m)
place-Separates [] n m s = (n, s)
place-Separates (k ∷ ks) n m s =
    place-Separates ks (suc n) (insert k n m) (insert-Separates k n m s)

longer_key : (host realm : Text) → host_realm_key host realm ≢ realm
unfolding host_realm_key
longer_key host realm e =
    let same = ap length e in
    let sum = length-append host (b'@' ∷ realm) in omega (arith, same, sum)

change_group_self :
    (f : List Connection → List Connection) (o : Option ℕ) (g : ℕ → List Connection) (i : ℕ)
    → o ≡ some i
    → change_group f o g i ≡ f (g i)
change_group_self f none g i h = absurd (cc h)
change_group_self f (some j) g i h = ground (arith, h)

change_group_other :
    (f : List Connection → List Connection) (o : Option ℕ) (g : ℕ → List Connection) (i : ℕ)
    → o ≢ some i
    → change_group f o g i ≡ g i
change_group_other f none g i h = refl
change_group_other f (some j) g i h = elim (Bool-cases (i == j)) [
  | inl t ↦ absurd (h (ap some (sym ((==_iff i j).0 t))))
  | inr u ↦ ap (λ b. if b then f (g i) else g i) u
]

not_text_eq : (s t : Text) → text_eq s t ≡ false → s ≢ t
not_text_eq s t h e = let same = (text_eq_iff s t).1 e in absurd (cc (h, same))

add_connection-served :
    (c : Connection) (r : RoutingConnection) (n : ℕ) (k : Text) (i : ℕ)
    → Separates n r.host_realm_connections
    → r.host_realm_connections k ≡ some i
    → (add_connection c r).groups i
      ≡ (if serves k c then push_connection c (r.groups i) else r.groups i)
unfolding add_connection
add_connection-served c r n k i (one, low) h =
    let key = host_realm_key c.host c.realm in
    let m = r.host_realm_connections in
    let f = push_connection c in
    let answer = λ (b : Bool). if b then f (r.groups i) else r.groups i in
    elim (Bool-cases (text_eq k key)) [
      | inl t ↦
          let k_is = (text_eq_iff k key).0 t in
          change_group_other f (m c.realm) _ i
            (λ e. longer_key c.host c.realm (sym k_is ∙ one k c.realm i h e))
          ∙ change_group_self f (m key) r.groups i (ap m (sym k_is) ∙ h)
          ∙ ap answer (sym (ap (λ b. b || text_eq k c.realm) t))
      | inr u ↦ elim (Bool-cases (text_eq k c.realm)) [
        | inl t ↦
            change_group_self f (m c.realm) _ i (ap m (sym ((text_eq_iff k c.realm).0 t)) ∙ h)
            ∙ ap f (
                change_group_other f (m key) r.groups i
                  (λ e. not_text_eq k key u (one k key i h e)))
            ∙ ap answer (sym (ap₂ (λ a b. a || b) u t))
        | inr v ↦
            change_group_other f (m c.realm) _ i
              (λ e. not_text_eq k c.realm v (one k c.realm i h e))
            ∙ change_group_other f (m key) r.groups i (λ e. not_text_eq k key u (one k key i h e))
            ∙ ap answer (sym (ap₂ (λ a b. a || b) u v))
      ]
    ]

add_all-served :
    (cs : List Connection) (r : RoutingConnection) (n : ℕ) (k : Text) (i : ℕ)
    → Separates n r.host_realm_connections
    → r.host_realm_connections k ≡ some i
    → (add_all cs r).groups i ≡ r.groups i ++ served k cs
unfolding add_connection push_connection
add_all-served [] r n k i s h = sym (append-nil (r.groups i))
add_all-served (c ∷ cs) r n k i s h =
    add_all-served cs (add_connection c r) n k i s h
    ∙ ap (λ g. g ++ served k cs) (add_connection-served c r n k i s h)
    ∙ split (serves k c)
  where
    split :
        (b : Bool)
        → (if b then r.groups i ++ (c ∷ []) else r.groups i) ++ served k cs
          ≡ r.groups i ++ (if b then c ∷ served k cs else served k cs)
    split true = append_assoc (r.groups i) (c ∷ []) (served k cs)
    split false = refl

abbrev pub has_key : Text → List Text → Bool
has_key k [] = false
has_key k (j ∷ ks) = text_eq k j || has_key k ks

-- A key stays in the map, with the number of a leaf that has it.
place-kept :
    (ks : List Text) (n : ℕ) (m : Map Text ℕ) (k : Text)
    → ((i : ℕ) × (m k ≡ some i))
    → (i : ℕ) × (place ks n m k ≡ some i)
place-kept [] n m k found = found
place-kept (j ∷ ks) n m k (i, e) = place-kept ks (suc n) (insert j n m) k (within (text_eq k j))
  where
    within : (b : Bool) → (i' : ℕ) × ((if b then some n else m k) ≡ some i')
    within true = (n, refl)
    within false = (i, e)

place-found :
    (ks : List Text) (n : ℕ) (m : Map Text ℕ) (k : Text)
    → has_key k ks ≡ true
    → (i : ℕ) × (place ks n m k ≡ some i)
place-found [] n m k h = absurd (cc h)
place-found (j ∷ ks) n m k h = elim (Bool-cases (text_eq k j)) [
  | inl t ↦ place-kept ks (suc n) (insert j n m) k (n, ap (λ b. if b then some n else m k) t)
  | inr u ↦ place-found ks (suc n) (insert j n m) k (ground (arith, h, u))
]

place-leaf :
    (ks : List Text) (n : ℕ) (m : Map Text ℕ) (k : Text) (i : ℕ)
    → place ks n m k ≡ some i
    → ((j : ℕ) × (i ≡ n + j) × (get_elem? ks j ≡ some k)) ⊎ (m k ≡ some i)
place-leaf [] n m k i h = inr h
place-leaf (j ∷ ks) n m k i h = elim (place-leaf ks (suc n) (insert j n m) k i h) [
  | inl (l, e, g) ↦ inl (suc l, omega (arith, e), g)
  | inr kept ↦ elim (Bool-cases (text_eq k j)) [
    | inl t ↦ inl (0, first t kept, ap some (sym ((text_eq_iff k j).0 t)))
    | inr u ↦ inr (sym (ap (λ b. if b then some n else m k) u) ∙ kept)
  ]
]
  where
    first : text_eq k j ≡ true → insert j n m k ≡ some i → i ≡ n + 0
    first t kept = ground (arith, t, kept)

fill_keeps :
    (cs : List Connection) (r : RoutingConnection) → (add_all cs r).connection ≡ r.connection
unfolding add_connection
fill_keeps [] r = refl
fill_keeps (c ∷ cs) r = fill_keeps cs (add_connection c r)

map_of-new :
    (t : Tree) (fuel : ℕ)
    → IsNamed t
    → length (print t) < fuel
    → (new fuel (print t)).host_realm_connections ≡ place (names t) 0 empty_map
unfolding new
map_of-new t fuel h short =
    ap (λ made. place (names_of made) 0 empty_map) (create_connection_from-print t fuel h short)
    ∙ ap (λ ks. place ks 0 empty_map) (append-nil (names t))

none_placed : Separates 0 empty_map
none_placed = (λ j k i hj hk. absurd (cc hj), λ k i h. absurd (cc h))

-- After any peers were added to the connection that the text of a tree of named groups builds, it is
-- still that tree, and a group with a name of the tree holds the peers with that name, in order.
pub add_all-new :
    (t : Tree) (fuel : ℕ) (cs : List Connection) (k : Text)
    → IsNamed t
    → length (print t) < fuel
    → has_key k (names t) ≡ true
    → ((add_all cs (new fuel (print t))).connection ≡ t)
      × ((i : ℕ) × (get_elem? (names t) i ≡ some k)
          × ((add_all cs (new fuel (print t))).groups i ≡ served k cs))
unfolding new
add_all-new t fuel cs k h short in_tree =
    let r = new fuel (print t) in
    let made = map_of-new t fuel h short in
    let (top, separate) = place-Separates (names t) 0 empty_map none_placed in
    let (i, at) = place-found (names t) 0 empty_map k in_tree in
    (
      fill_keeps cs r ∙ ap root_of (create_connection_from-print t fuel h short),
      (
        i,
        elim (place-leaf (names t) 0 empty_map k i at) [
          | inl (j, e, g) ↦ ap (get_elem? (names t)) (omega (arith, e)) ∙ g
          | inr empty ↦ absurd (cc empty)
        ],
        add_all-served cs r top k i (subst (Separates top) (sym made) separate)
            (ap (λ m. m k) made ∙ at),
      ),
    )
