-- ===== src/Routing/Manager/Items.antt =====
-- The entry and the connection that the configuration gives a key.
use mathlib.Core.Path.{subst}
use rest_diameter_bridge.Routing.Manager.{
  RoutingConnectionManager, RoutingItem, RoutingItemConfig, insert_all, insert_item, set_items,
  set_item, create_routing_item, new_connection,
}
use rest_diameter_bridge.Routing.Peers.Filled.{has_key}
use rest_diameter_bridge.Base.Map.{Map, insert, text_key, beq_self, nat_key}
use rest_diameter_bridge.Base.Text.{Text, text_eq}
use rest_diameter_bridge.Base.{
  ℕ, suc, ◌≡◌, Bool, true, false, Option, none, some, List, [], ◌∷◌, ◌++◌, if◌then◌else◌,
  Bool-cases, length, ◌+◌, ◌<◌, refl, ap, ◌∙◌, inl, inr, ◌||◌, arith,
}

-- Whether a configured item lists a key.
abbrev pub in_keys : Option (List Text) → Text → Bool
in_keys none k = false
in_keys (some hrs) k = has_key k hrs

abbrev pub any_lists : List RoutingItemConfig → Text → Bool
any_lists [] k = false
any_lists (item ∷ items) k = in_keys item.host_realms k || any_lists items k

insert_all-kept :
    (hrs : List Text) (item : RoutingItem) (m : Map Text RoutingItem) (k : Text)
    → m k ≡ some item
    → insert_all hrs item m k ≡ some item
insert_all-kept [] item m k h = h
insert_all-kept (j ∷ hrs) item m k h =
    insert_all-kept hrs item (insert j item m) k (within (text_eq k j))
  where
    within : (b : Bool) → (if b then some item else m k) ≡ some item
    within true = refl
    within false = h

insert_all-listed :
    (hrs : List Text) (item : RoutingItem) (m : Map Text RoutingItem) (k : Text)
    → has_key k hrs ≡ true
    → insert_all hrs item m k ≡ some item
insert_all-listed [] item m k h = absurd (cc h)
insert_all-listed (j ∷ hrs) item m k h = elim (Bool-cases (text_eq k j)) [
  | inl t ↦ insert_all-kept hrs item (insert j item m) k (ap (λ b. if b then some item else m k) t)
  | inr u ↦ insert_all-listed hrs item (insert j item m) k (ground (arith, h, u))
]

insert_all-other :
    (hrs : List Text) (item : RoutingItem) (m : Map Text RoutingItem) (k : Text)
    → has_key k hrs ≡ false
    → insert_all hrs item m k ≡ m k
insert_all-other [] item m k h = refl
insert_all-other (j ∷ hrs) item m k h =
    let ih = insert_all-other hrs item (insert j item m) k in ground (arith, h, ih)

insert_item-other :
    (hrs : Option (List Text)) (item : RoutingItem) (m : Map Text RoutingItem) (k : Text)
    → in_keys hrs k ≡ false
    → insert_item hrs item m k ≡ m k
insert_item-other none item m k h = refl
insert_item-other (some hrs) item m k h = insert_all-other hrs item m k h

insert_item-listed :
    (hrs : Option (List Text)) (item : RoutingItem) (m : Map Text RoutingItem) (k : Text)
    → in_keys hrs k ≡ true
    → insert_item hrs item m k ≡ some item
insert_item-listed none item m k h = absurd (cc h)
insert_item-listed (some hrs) item m k h = insert_all-listed hrs item m k h

-- Items without the key leave its entry, and later items leave the connection of an earlier one.
set_items-other :
    (items : List RoutingItemConfig) (n : ℕ) (m : RoutingConnectionManager) (k : Text)
    → any_lists items k ≡ false
    → (set_items items n m).routing_connections k ≡ m.routing_connections k
set_items-other [] n m k h = refl
set_items-other (item ∷ items) n m k h =
    set_items-other items (suc n) (set_item item n m) k (ground (arith, h))
    ∙ insert_item-other item.host_realms (create_routing_item n item) m.routing_connections k
        (ground (arith, h))

set_items-before :
    (items : List RoutingItemConfig) (n : ℕ) (m : RoutingConnectionManager) (j : ℕ)
    → j < n
    → (set_items items n m).connections j ≡ m.connections j
set_items-before [] n m j h = refl
set_items-before (item ∷ items) n m j h =
    set_items-before items (suc n) (set_item item n m) j (omega (arith, h)) ∙ ground (arith, h)

-- The last item that lists a key has its entry.
set_item-found :
    (item : RoutingItemConfig) (after : List RoutingItemConfig) (n : ℕ)
    (m : RoutingConnectionManager) (k : Text)
    → in_keys item.host_realms k ≡ true
    → any_lists after k ≡ false
    → ((set_items (item ∷ after) n m).routing_connections k ≡ some (create_routing_item n item))
      × ((set_items (item ∷ after) n m).connections n ≡ new_connection item.route)
set_item-found item after n m k listed free = (
  set_items-other after (suc n) (set_item item n m) k free
      ∙ insert_item-listed item.host_realms (create_routing_item n item) m.routing_connections k
          listed,
  set_items-before after (suc n) (set_item item n m) n (omega arith)
      ∙ ap (λ b. if b then new_connection item.route else m.connections n) (beq_self n),
)

no_more : (n i : ℕ) → i ≡ n + 0 → n ≡ i
no_more n i e = omega (arith, e)

pub set_items-found :
    (before : List RoutingItemConfig) (item : RoutingItemConfig) (after : List RoutingItemConfig)
    (n i : ℕ) (m : RoutingConnectionManager) (k : Text)
    → i ≡ n + length before
    → in_keys item.host_realms k ≡ true
    → any_lists after k ≡ false
    → ((set_items (before ++ (item ∷ after)) n m).routing_connections k
        ≡ some (create_routing_item i item))
      × ((set_items (before ++ (item ∷ after)) n m).connections i ≡ new_connection item.route)
set_items-found [] item after n i m k e listed free =
    subst
      (λ j.
        ((set_items (item ∷ after) n m).routing_connections k ≡ some (create_routing_item j item))
        × ((set_items (item ∷ after) n m).connections j ≡ new_connection item.route))
      (no_more n i e) (set_item-found item after n m k listed free)
set_items-found (other ∷ before) item after n i m k e listed free =
    set_items-found before item after (suc n) i (set_item other n m) k (omega (arith, e)) listed
      free

pub set_items-policy :
    (items : List RoutingItemConfig) (n : ℕ) (m : RoutingConnectionManager)
    → (set_items items n m).policy ≡ m.policy
set_items-policy [] n m = refl
set_items-policy (item ∷ items) n m = set_items-policy items (suc n) (set_item item n m)
