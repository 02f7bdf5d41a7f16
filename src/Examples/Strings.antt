-- ===== src/Examples/Strings.antt =====
-- The functions of the packages strings and strconv at some texts.
use mqtt_home_automation.Base.{◌≡◌, refl, [], ◌∷◌}
use mqtt_home_automation.Base.{some, none}
use mqtt_home_automation.Base.Int.{negsuc}
use mqtt_home_automation.Text.Number.{atoi}
use mqtt_home_automation.Text.{codes, trim_space, split, replace_all, itoa}

trims : trim_space (codes " \t send 'x' \r\n") ≡ codes "send 'x'"
unfolding trim_space
trims = refl

splits : split (codes "a\n\nb") b'\n' ≡ codes "a" ∷ [] ∷ codes "b" ∷ []
unfolding split
splits = refl

replaces : replace_all (codes "a\\r\\rb") (codes "\\r") (codes "\r") ≡ codes "a\r\rb"
unfolding replace_all
replaces = refl

prints : itoa 1203 ≡ codes "1203"
unfolding itoa
prints = refl

reads_negative : atoi (codes "-5") ≡ some (negsuc 4)
unfolding atoi
reads_negative = refl

reads_no_unit : atoi (codes "5m") ≡ none
unfolding atoi
reads_no_unit = refl

out_of_range : atoi (codes "9223372036854775808") ≡ none
unfolding atoi
out_of_range = refl
