-- ===== src/Config/Tests.antt =====
-- A configuration file that changes the level and the console of the logger.
use connext_triad.Prelude.{ℕ, String, true, false, Option, none, some, List, [], ◌∷◌, ◌≡◌, refl}
use connext_triad.Rpc.Json.{Result, result}
use connext_triad.Rpc.SmallJson.{Small, small_json, small_object, txt, flag}
use connext_triad.Log.{debug, start, stop, set_level}
use connext_triad.Log.Tests.{disk, silent}
use connext_triad.Config.{defaults, load}
use connext_triad.Config.Watch.{
  Follows, first_applied, set_up, follow, turn, watch, begin, watch-Follows,
}

abbrev u16 : String → ℕ → Small → Result ℕ
u16 key default j = result default

abbrev file : Small
file =
    small_object (
      ("logging", small_object (("level", txt "debug") ∷ ("console_output", flag false) ∷ [])) ∷ [])

abbrev broken_file : Small
broken_file =
    small_object
      (("logging", small_object (("log_dir", txt "elsewhere") ∷ ("level", flag true) ∷ [])) ∷ [])

abbrev before : List (Option (Result Small))
before = none ∷ some (result broken_file) ∷ []

-- A value of the wrong type ends the load, and the assignments before it stay.
broken_load :
    ((load small_json u16 (some (result broken_file)) defaults).0 ≡ false)
    × ((load small_json u16 (some (result broken_file)) defaults).1.logging.log_dir ≡ "elsewhere")
    × ((load small_json u16 (some (result broken_file)) defaults).1.logging.level ≡ "info")
unfolding load defaults
broken_load = (refl, refl, refl)

loads :
    (load small_json u16
      (some (result file))
      (watch small_json u16 disk before (begin small_json u16 disk defaults silent)).config).0
    ≡ true
unfolding load defaults watch begin
loads = refl

watch-Follows_example :
    Follows disk
      (first_applied disk
        (turn small_json u16 disk (some (result file)) (
          watch small_json u16 disk before
            (begin small_json u16 disk defaults silent))).config.logging)
      (turn small_json u16 disk
        (some (result file))
        (watch small_json u16 disk before (begin small_json u16 disk defaults silent))).logger
watch-Follows_example =
    watch-Follows small_json u16 disk defaults silent before (some (result file)) refl loads

debug_level :
    (turn small_json u16 disk (some (result file)) (
      watch small_json u16 disk before
        (begin small_json u16 disk defaults silent))).logger.current_level
    ≡ debug
unfolding load defaults watch begin turn set_up follow start stop set_level first_applied
debug_level = refl
