-- ===== src/Stack/Tests.antt =====
-- The theorem about listen addresses at concrete values.
use rest_diameter_bridge.Routing.Strategy.{trim, trim_start, trim_end, is_space}
use rest_diameter_bridge.Stack.Listen.{
  from_str, parsed, parse_u16, parameters_from_str, digits_from, is_digit,
}
use rest_diameter_bridge.Stack.Listen.Written.{from_str-write, AreHosts, IsHost}
use rest_diameter_bridge.Base.Text.{text}
use rest_diameter_bridge.Base.{◌≡◌, refl, some, [], ◌∷◌}

first-IsHost : IsHost (text "10.0.0.1")
unfolding trim trim_start trim_end is_space
first-IsHost = (refl, refl)

others-AreHosts : AreHosts (text "::1" ∷ [])
unfolding trim trim_start trim_end is_space
others-AreHosts = ((refl, refl), tt)

port_number : parse_u16 (text "3868") ≡ some 3868
unfolding parse_u16 digits_from is_digit
port_number = refl

from_str-write_example :
    from_str (text "tcp://10.0.0.1,::1:3868?tls=true")
    ≡ parsed (record {
      protocol = text "tcp";
      hosts = text "10.0.0.1" ∷ text "::1" ∷ [];
      port = 3868;
      parameters = some (parameters_from_str (text "tls=true"));
    })
from_str-write_example =
    from_str-write (text "tcp") (text "10.0.0.1") (text "::1" ∷ []) (text "3868") 3868
      (some (text "tls=true")) refl first-IsHost others-AreHosts refl port_number refl refl refl
