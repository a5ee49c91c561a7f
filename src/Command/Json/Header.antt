-- ===== src/Command/Json/Header.antt =====
-- The members of the header that `to_json` writes.
use rest_diameter_bridge.Base.Text.{Text, text, text_eq}
use rest_diameter_bridge.Command.Json.{json_u32, header_entries, name_entry}
use rest_diameter_bridge.Command.Json.Laws.{Only, Only-insert_entry}
use rest_diameter_bridge.Command.Dictionary.{CommandJson, CommandMap, command_by_code}
use rest_diameter_bridge.Command.Defs.{Command, is_request}
use rest_diameter_bridge.Base.Json.{Value, get, insert_entry, text_lt}
use rest_diameter_bridge.Base.{true, false, Option, none, some, inl, inr, ◌≡◌, refl, Option-cases}

module _ (cm : CommandMap) (c : Command) (key : Text) (w : Value) where
  name_entry-Only :
      (o : Option CommandJson) → text_eq (text "name") key ≡ false → Only key w (name_entry o)
  unfolding insert_entry
  name_entry-Only none h = tt
  name_entry-Only (some d) h = (λ t. absurd (cc (t, h)), tt)

  -- The members of the header, of which at most one has the key.
  pub header_entries-Only :
      (text_eq (text "flags") key ≡ false)
      → (text_eq (text "end_to_end_id") key ≡ true → json_u32 c.end_to_end_id ≡ w)
      → (text_eq (text "hop_by_hop_id") key ≡ true → json_u32 c.hop_by_hop_id ≡ w)
      → (text_eq (text "application_id") key ≡ true → json_u32 c.application_id ≡ w)
      → (text_eq (text "code") key ≡ false)
      → (text_eq (text "name") key ≡ false)
      → Only key w (header_entries cm c)
  unfolding header_entries
  header_entries-Only f e h a d n =
      Only-insert_entry key w _ _ _ (λ t. absurd (cc (t, f)))
        (Only-insert_entry key w _ _ _ e (
          Only-insert_entry key w _ _ _ h (
            Only-insert_entry key w _ _ _ a
              (Only-insert_entry key w _ _ _ (λ t. absurd (cc (t, d))) (name_entry-Only _ n)))))

-- What `to_json` puts in the header.
pub record Header (cm : CommandMap) (c : Command) : Type 0 where
  pub code_there : get (text "code") (header_entries cm c) ≡ some (json_u32 c.command_code)
  pub no_request : get (text "request") (header_entries cm c) ≡ none
  pub application_there :
      get (text "application_id") (header_entries cm c) ≡ some (json_u32 c.application_id)
  pub hop_there : get (text "hop_by_hop_id") (header_entries cm c) ≡ some (json_u32 c.hop_by_hop_id)
  pub end_there : get (text "end_to_end_id") (header_entries cm c) ≡ some (json_u32 c.end_to_end_id)

pub header_entries-Header : (cm : CommandMap) (c : Command) → Header cm c
unfolding header_entries insert_entry get text_eq text_lt
header_entries-Header cm c =
    elim (Option-cases (command_by_code c.command_code (is_request c) cm)) [
      | inl e ↦ record {
        code_there = rw e refl;
        no_request = rw e refl;
        application_there = rw e refl;
        hop_there = rw e refl;
        end_there = rw e refl;
      }
      | inr (d, e) ↦ record {
        code_there = rw e refl;
        no_request = rw e refl;
        application_there = rw e refl;
        hop_there = rw e refl;
        end_there = rw e refl;
      }
    ]
