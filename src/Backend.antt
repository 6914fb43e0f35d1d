-- ===== src/Backend.antt =====
-- The activation backends and boot roles of src/manifest.rs.
use nixdeploy_corbet_ch.Base.{◌≡◌, ◌↔◌, Bool, true, false, Option, none, some, arith}
use nixdeploy_corbet_ch.Text.{Text, codes, ◌==◌}
use nixdeploy_corbet_ch.Text.Laws.{eq_iff}

pub data Backend : Type 0 where
  nixos system_manager home_manager nix_darwin : Backend

unfoldable pub as_str : Backend → Text
as_str nixos = codes "nixos"
as_str system_manager = codes "system-manager"
as_str home_manager = codes "home-manager"
as_str nix_darwin = codes "nix-darwin"

unfoldable pub backend_eq : Backend → Backend → Bool
backend_eq nixos nixos = true
backend_eq system_manager system_manager = true
backend_eq home_manager home_manager = true
backend_eq nix_darwin nix_darwin = true
backend_eq a b = false

pub backend_eq_iff : (a b : Backend) → (backend_eq a b ≡ true) ↔ (a ≡ b)
unfolding backend_eq
backend_eq_iff a b = ground arith

-- `Backend::Nixos | Backend::SystemManager`
abbrev pub is_system : Backend → Bool
is_system nixos = true
is_system system_manager = true
is_system home_manager = false
is_system nix_darwin = false

-- The plane names are distinct, so a plane's name says which backend it has.
pub as_str-injective : (a b : Backend) → as_str a ≡ as_str b → a ≡ b
unfolding as_str
as_str-injective a b h = ground arith

pub data BootRole : Type 0 where
  primary nixrescue : BootRole

unfoldable pub role_str : BootRole → Text
role_str primary = codes "primary"
role_str nixrescue = codes "nixrescue"

unfoldable pub role_eq : BootRole → BootRole → Bool
role_eq primary primary = true
role_eq nixrescue nixrescue = true
role_eq a b = false

-- Equality of optional texts (`Option<String> == Option<String>`).
unfoldable pub option_eq : Option Text → Option Text → Bool
option_eq none none = true
option_eq (some a) (some b) = a == b
option_eq none (some b) = false
option_eq (some a) none = false

pub option_eq_iff : (a b : Option Text) → (option_eq a b ≡ true) ↔ (a ≡ b)
unfolding option_eq
option_eq_iff none none = ground arith
option_eq_iff none (some b) = ground arith
option_eq_iff (some a) none = ground arith
option_eq_iff (some a) (some b) = ground (arith, eq_iff a b)
