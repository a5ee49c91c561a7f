-- ===== src/Command/Dictionary/Tests.antt =====
-- The theorems about command dictionaries at concrete definitions.
use rest_diameter_bridge.Base.Text.{text, text_eq}
use rest_diameter_bridge.Command.Dictionary.{
  CommandJson, new_command_json, command_by_code, command_by_name, first_with, command_code_as_u32,
}
use rest_diameter_bridge.Command.Dictionary.Laws.{
  new_command_map_lem, has_code, has_name, last_command,
}
use rest_diameter_bridge.Command.Dictionary.Override.{command_by_code-override}
use rest_diameter_bridge.Command.Dictionary.Sort.Names.{sort_avps-by_names, by_names}
use rest_diameter_bridge.Command.Dictionary.Sort.{
  sort_avps, sort_key, sort_by_key, insert_by, position_from,
}
use rest_diameter_bridge.Command.Dictionary.Standard.{standard_commands, new_command_map}
use rest_diameter_bridge.Avp.Dictionary.{
  AvpMap, new_avp_json, add_all, empty_avp_map, utf8_string, get_by_code, add_json,
}
use rest_diameter_bridge.Avp.Defs.{Avp, avp, nil}
use rest_diameter_bridge.Base.{
  none, some, List, [], ◌∷◌, true, false, get_elem?, ◌≡◌, refl, ◌++◌, arith,
}

-- A user's own definition of the watchdog request.
abbrev own_watchdog : CommandJson
own_watchdog =
    new_command_json (text "Device-Watchdog-Request") (text "DWR") 280 0 true false false
      (text "Origin-State-Id" ∷ text "Origin-Host" ∷ [])

abbrev standard_watchdog : CommandJson
standard_watchdog =
    new_command_json (text "Device-Watchdog-Request") (text "DWR") 280 0 true true false
      (text "Origin-Host" ∷ text "Origin-Realm" ∷ text "Origin-State-Id" ∷ [])

standard_watchdog_there : get_elem? standard_commands 6 ≡ some standard_watchdog
unfolding standard_commands command_code_as_u32
standard_watchdog_there = refl

abbrev two_names : AvpMap
two_names =
    add_all
      (new_avp_json (text "Origin-Host") 264 utf8_string true none
        ∷ new_avp_json (text "Origin-State-Id") 278 utf8_string true none
        ∷ [])
      empty_avp_map

abbrev unsorted : List Avp
unsorted =
    avp 1 0 none (some []) nil
    ∷ avp 264 0 none (some []) nil
    ∷ avp 278 0 none (some (1 ∷ [])) nil
    ∷ avp 278 0 none (some (2 ∷ [])) nil
    ∷ []

sorted :
    sort_avps own_watchdog two_names unsorted
    ≡ avp 278 0 none (some (1 ∷ [])) nil
      ∷ avp 278 0 none (some (2 ∷ [])) nil
      ∷ avp 264 0 none (some []) nil
      ∷ avp 1 0 none (some []) nil
      ∷ []
unfolding sort_avps sort_by_key insert_by sort_key position_from get_by_code add_all add_json
    text_eq
sorted = refl

sort_avps-by_names_example :
    sort_avps own_watchdog two_names unsorted ≡ by_names two_names own_watchdog.avp_names unsorted
sort_avps-by_names_example = sort_avps-by_names own_watchdog two_names unsorted (omega arith)

new_command_map_lem_example :
    (command_by_code 280 true (new_command_map (own_watchdog ∷ []))
      ≡ first_with (has_code 280 true) (standard_commands ++ (own_watchdog ∷ [])))
    × (command_by_name (text "dwr") (new_command_map (own_watchdog ∷ []))
        ≡ last_command (has_name (text "dwr")) (standard_commands ++ (own_watchdog ∷ [])))
new_command_map_lem_example = new_command_map_lem 280 true (text "dwr") (own_watchdog ∷ [])

command_by_code-override_example :
    (command_by_code 280 true (new_command_map ([] ++ (own_watchdog ∷ [])))
      ≡ some standard_watchdog)
    × (command_by_name
          (text "Device-Watchdog-Request")
          (new_command_map ([] ++ (own_watchdog ∷ [])))
        ≡ some own_watchdog)
command_by_code-override_example =
    command_by_code-override [] own_watchdog standard_watchdog 6 standard_watchdog_there refl refl
