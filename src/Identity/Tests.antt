-- ===== src/Identity/Tests.antt =====
-- Runs of the identity code, and the theorems at concrete registries.
use uawp.Base.{
  ◌≡◌, refl, [], ◌∷◌, bytes_eq, Bytes, codes, ok, err, Result, bytes_beq, contains_any, has_prefix,
  trim_space, arith, ◌++◌,
}
use uawp.Base.Utf8.{runes}
use uawp.Identity.Profile.{
  Profile, IdentityError, validate_display_name, new_profile, hex, read_full, random_id,
  no_randomness, name_has_control, duplicate_binding,
}
use uawp.Identity.Store.{
  SessionBinding, Registry, validate_profile, validate_profiles, validate_bindings,
  validate_registry,
}
use uawp.Identity.Store.Laws.{IsBindingOf}
use uawp.Identity.Session.{upsert_binding}
use uawp.Identity.Session.Validity.{validate_registry-upsert_binding}

abbrev ada : Profile
ada = record { profile_id = codes "p1"; worker_id = codes "w1"; display_name = codes "Ada" }

abbrev bob : Profile
bob = record { profile_id = codes "p2"; worker_id = codes "w2"; display_name = codes "Bob" }

abbrev session : Bytes → Bytes → SessionBinding
session profile_id session_id = record {
  workspace = codes "/w";
  profile_id = profile_id;
  session_id = session_id;
  generation = 1;
}

abbrev home : Registry
home = record {
  schema_version = codes "1";
  default_profile_id = codes "p1";
  profiles = ada ∷ bob ∷ [];
  bindings = session (codes "p1") (codes "s1") ∷ [];
}

-- Unfolding this opens all that a run calls.
checked : Registry → Result IdentityError (Unit {0})
unfolding validate_registry validate_profiles validate_bindings validate_profile
    validate_display_name runes trim_space bytes_beq contains_any has_prefix
checked = validate_registry

home_valid : validate_registry home ≡ ok tt
unfolding checked
home_valid = refl

-- The names of the two bindings meet around the zero byte.
abbrev clash : Registry
clash = record {
  schema_version = codes "1";
  default_profile_id = [];
  profiles =
      record { profile_id = codes "c"; worker_id = codes "w1"; display_name = codes "C" }
      ∷ record {
        profile_id = codes "b" ++ (0 ∷ codes "c");
        worker_id = codes "w2";
        display_name = codes "B";
      }
      ∷ [];
  bindings =
      record {
        workspace = codes "/a" ++ (0 ∷ codes "b");
        profile_id = codes "c";
        session_id = codes "s";
        generation = 1;
      }
      ∷ record {
        workspace = codes "/a";
        profile_id = codes "b" ++ (0 ∷ codes "c");
        session_id = codes "s";
        generation = 1;
      }
      ∷ [];
}

clash_refused : validate_registry clash ≡ err duplicate_binding
unfolding checked
clash_refused = refl

name_trimmed : validate_display_name (codes "  Ada ") ≡ ok (codes "Ada")
unfolding checked
name_trimmed = refl

-- U+0085 is a control character of two bytes.
name_controlled : validate_display_name (65 ∷ 0xc2 ∷ 0x85 ∷ 65 ∷ []) ≡ err name_has_control
unfolding checked
name_controlled = refl

euro_runes : runes (0xe2 ∷ 0x82 ∷ 0xac ∷ 0xff ∷ []) ≡ 0x20ac ∷ 0xfffd ∷ []
unfolding runes
euro_runes = refl

-- Six bytes are too few for an identifier.
short_source : new_profile (codes "Ada") (1 ∷ 2 ∷ 3 ∷ 4 ∷ 5 ∷ 6 ∷ []) ≡ err no_randomness
unfolding new_profile random_id read_full checked
short_source = refl

hex_text : hex (0 ∷ 255 ∷ 26 ∷ []) ≡ codes "00ff1a"
unfolding hex
hex_text = refl

abbrev bob_here : SessionBinding
bob_here = session (codes "p2") (codes "s2")

bob_fits : IsBindingOf home.profiles bob_here
unfolding checked
bob_fits = (refl, refl, ground arith, ground arith)

validate_registry-upsert_binding_example : validate_registry (upsert_binding home bob_here) ≡ ok tt
validate_registry-upsert_binding_example =
    validate_registry-upsert_binding home bob_here home_valid bob_fits refl (refl, tt)
