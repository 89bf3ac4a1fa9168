-- ===== src/Tests/ParseTests.antt =====
-- The list parser at concrete inputs.
use dnsaur.Prelude.{◌≡◌, refl, Option, some}
use dnsaur.Prelude.Bytes.{Bytes, codes, to_lower, trim_dot, cut_byte}
use dnsaur.Prelude.Text.{split}
use dnsaur.Filter.Parse.{label_ok, ParseResult, valid_name, valid_domain, parse_list}
use dnsaur.Filter.Parse.Entries.{IsClean, parse_list_total}

-- An encoder that leaves every name as it is.
abbrev to_ascii : Bytes → Option Bytes
to_ascii s = some s

valid_domain_ads : valid_domain to_ascii (codes "Ads.Example.com.") ≡ some (codes "ads.example.com")
unfolding valid_domain valid_name to_lower trim_dot split label_ok cut_byte
valid_domain_ads = refl

parse_list_total_example :
    (out : ParseResult) × (parse_list to_ascii (codes "||ads.example.com^") ≡ some out)
    × IsClean out
parse_list_total_example = parse_list_total to_ascii (codes "||ads.example.com^")
