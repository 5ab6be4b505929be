-- ===== src/Benchmark/Checks.antt =====
-- Instances of the theorem on the benchmark's command line, and the loop on other command lines.
use actix_send.Prelude.{◌≡◌, refl, true, false, [], ◌∷◌, none, some, arith}
use actix_send.Text.{codes, equal}
use actix_send.Benchmark.{Options, defaults, parse_usize, collect_arg, file_path}
use actix_send.Benchmark.Arguments.{command_line, collect_arg-command_line}

-- The target is itself one of the words.
abbrev asked : Options
asked = record { target = codes "--dynamic"; rounds = 250; heap_alloc = true; dynamic = false }

collect_arg-command_line_example :
    collect_arg none (command_line (codes "benchmark") asked) defaults
    ≡ some (file_path none, asked)
unfolding equal
collect_arg-command_line_example =
    collect_arg-command_line none (codes "benchmark") asked refl (omega arith)

-- A number that does not parse is skipped, and so is a flag at the end without its value.
bad_number :
    collect_arg none (codes "b" ∷ codes "--rounds" ∷ codes "12x" ∷ codes "--target" ∷ []) defaults
    ≡ some (file_path none, defaults)
unfolding collect_arg equal
bad_number = refl

too_big : parse_usize (codes "18446744073709551616") ≡ none
unfolding parse_usize
too_big = refl

with_plus : parse_usize (codes "+7") ≡ some 7
unfolding parse_usize
with_plus = refl
