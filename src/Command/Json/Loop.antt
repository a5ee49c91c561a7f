-- ===== src/Command/Json/Loop.antt =====
-- What the loop of `from_json_value` leaves in each variable.
use rest_diameter_bridge.Avp.Json.Read.{name_value_to_avp}
use rest_diameter_bridge.Base.Text.{Text, text_eq, text, text_eq_sound}
use rest_diameter_bridge.Command.Json.{
  Reading, read_entry, read_entries, push_value, push_items, push_avp,
}
use rest_diameter_bridge.Command.Json.Laws.{Only, text_eq_sym_false}
use rest_diameter_bridge.Avp.Json.{Codecs}
use rest_diameter_bridge.Avp.Dictionary.{AvpMap}
use rest_diameter_bridge.Avp.Defs.{Avp}
use rest_diameter_bridge.Base.Json.{
  Value, Entries, Items, no_entry, entry, no_item, item, null, boolean, number, string, array,
  object, get,
}
use rest_diameter_bridge.Base.{
  ℕ, false, Option, none, some, List, [], ◌∷◌, inl, inr, Bool-cases, ◌≡◌, refl, ◌∙◌, ◌⊎◌, ◌++◌,
  arith,
}

-- A quantity of the reading that no AVP changes.
abbrev KeepsAvps : (Reading → ℕ) → Type 0
KeepsAvps g = (r : Reading) (avps : List Avp) → g (record r { read_avps = avps }) ≡ g r

push_avp-keeps :
    (g : Reading → ℕ) (o : Option Avp) (r : Reading) → KeepsAvps g → g (push_avp o r) ≡ g r
push_avp-keeps g none r h = refl
push_avp-keeps g (some a) r h = h r (r.read_avps ++ (a ∷ []))

push_items-keeps :
    (g : Reading → ℕ) (k : Codecs) (m : AvpMap) (name : Text) (vs : Items) (r : Reading)
    → KeepsAvps g
    → g (push_items k m name vs r) ≡ g r
push_items-keeps g k m name no_item r h = refl
push_items-keeps g k m name (item v vs) r h =
    push_items-keeps g k m name vs (push_avp (name_value_to_avp k m name v) r) h
    ∙ push_avp-keeps g (name_value_to_avp k m name v) r h

push_value-keeps :
    (g : Reading → ℕ) (k : Codecs) (m : AvpMap) (name : Text) (v : Value) (r : Reading)
    → KeepsAvps g
    → g (push_value k m name v r) ≡ g r
unfolding push_value
push_value-keeps g k m name (array vs) r h = push_items-keeps g k m name vs r h
push_value-keeps g k m name null r h = push_avp-keeps g _ r h
push_value-keeps g k m name (boolean b) r h = push_avp-keeps g _ r h
push_value-keeps g k m name (number n) r h = push_avp-keeps g _ r h
push_value-keeps g k m name (string s) r h = push_avp-keeps g _ r h
push_value-keeps g k m name (object es) r h = push_avp-keeps g _ r h

pub read_application-kept :
    (k : Codecs) (m : AvpMap) (key : Text) (v : Value) (r : Reading)
    → text_eq key (text "application_id") ≡ false
    → (read_entry k m key v r).read_application ≡ r.read_application
unfolding read_entry
read_application-kept k m key v r e =
    ground
      (arith, push_value-keeps (λ (x : Reading). x.read_application) k m key v r (λ x avps. refl))

pub read_hop_by_hop-kept :
    (k : Codecs) (m : AvpMap) (key : Text) (v : Value) (r : Reading)
    → text_eq key (text "hop_by_hop_id") ≡ false
    → (read_entry k m key v r).read_hop_by_hop ≡ r.read_hop_by_hop
unfolding read_entry
read_hop_by_hop-kept k m key v r e =
    ground
      (arith, push_value-keeps (λ (x : Reading). x.read_hop_by_hop) k m key v r (λ x avps. refl))

pub read_end_to_end-kept :
    (k : Codecs) (m : AvpMap) (key : Text) (v : Value) (r : Reading)
    → text_eq key (text "end_to_end_id") ≡ false
    → (read_entry k m key v r).read_end_to_end ≡ r.read_end_to_end
unfolding read_entry
read_end_to_end-kept k m key v r e =
    ground
      (arith, push_value-keeps (λ (x : Reading). x.read_end_to_end) k m key v r (λ x avps. refl))

pub read_flags-kept :
    (k : Codecs) (m : AvpMap) (key : Text) (v : Value) (r : Reading)
    → text_eq key (text "flags") ≡ false
    → (read_entry k m key v r).read_flags ≡ r.read_flags
unfolding read_entry
read_flags-kept k m key v r e =
    ground (arith, push_value-keeps (λ (x : Reading). x.read_flags) k m key v r (λ x avps. refl))

-- A variable that one key sets, to a value that does not depend on what it was.
module _ (k : Codecs) (m : AvpMap) (g : Reading → ℕ) (key : Text) (w : Value) (n : ℕ)
    (sets : (r : Reading) → g (read_entry k m key w r) ≡ n)
    (keeps : (j : Text) (v : Value) (r : Reading)
      → text_eq j key ≡ false
      → g (read_entry k m j v r) ≡ g r) where
  pub read_entries-sets :
      (es : Entries) (r : Reading)
      → Only key w es
      → (g r ≡ n) ⊎ (get key es ≡ some w)
      → g (read_entries k m es r) ≡ n
  unfolding read_entries get
  read_entries-sets no_entry r o (inl e) = e
  read_entries-sets no_entry r o (inr e) = absurd (cc e)
  read_entries-sets (entry j v es) r o h = elim (Bool-cases (text_eq j key)) [
    | inl t ↦
        read_entries-sets es (read_entry k m j v r) o.1
          (inl (set_by j v (text_eq_sound j key t) (o.0 t) r))
    | inr t ↦
        read_entries-sets es (read_entry k m j v r) o.1
          (passed h (keeps j v r t) (text_eq_sym_false j key t))
  ]
    where
      set_by :
          (i : Text) (x : Value) → i ≡ key → x ≡ w → (s : Reading) → g (read_entry k m i x s) ≡ n
      set_by i x p q s = rw (p, q) (sets s)

      passed :
          (g r ≡ n) ⊎ (get key (entry j v es) ≡ some w)
          → g (read_entry k m j v r) ≡ g r
          → text_eq key j ≡ false
          → (g (read_entry k m j v r) ≡ n) ⊎ (get key es ≡ some w)
      passed (inl e) q t = inl (q ∙ e)
      passed (inr e) q t = inr (rw t at e)
