-- ===== src/Benchmark.antt =====
-- examples/benchmark.rs: the command line of the benchmark.
pub mod Decimal
pub mod Arguments
mod Checks
use actix_send.Prelude.{
  ℕ, zero, suc, ◌+◌, ◌-◌, ◌*◌, ◌^◌, Bool, true, false, ◌&&◌, List, [], ◌∷◌, ◌++◌, Option, none,
  some, length, ltb, ◌==◌, if◌then◌else◌,
}
use actix_send.Shared.{usize_mod}
use actix_send.Text.{Text, codes, equal}

-- The variables that `collect_arg` borrows from `main`.
pub record Options : Type 0 where
  pub target : Text
  pub rounds : ℕ
  pub heap_alloc : Bool
  pub dynamic : Bool

-- Their values in `main` before the call.
abbrev pub defaults : Options
defaults = record {
  target = codes "actix_send";
  rounds = 1_000;
  heap_alloc = false;
  dynamic = false;
}

-- `parse::<usize>` of the standard library: an optional `+`, then digits, and no overflow.
unfoldable pub is_digit : ℕ → Bool
is_digit c = ltb 47 c && ltb c 58

unfoldable pub parse_digits : ℕ → Text → Option ℕ
unfolding is_digit
parse_digits n [] = some n
parse_digits n (c ∷ m) =
    let rest = parse_digits (n * 10 + (c - 48)) m in
    if is_digit c && ltb (n * 10 + (c - 48)) usize_mod then rest else none

unfoldable pub parse_some : Text → Option ℕ
unfolding parse_digits
parse_some [] = none
parse_some (c ∷ m) = parse_digits 0 (c ∷ m)

unfoldable pub parse_usize : Text → Option ℕ
unfolding parse_some
parse_usize [] = none
parse_usize (c ∷ m) = if c == 43 then parse_some m else parse_some (c ∷ m)

-- What follows `--target` and `--rounds`; a number that does not parse is skipped.
unfoldable pub take_target : List Text → Options → List Text × Options
take_target [] o = ([], o)
take_target (arg ∷ iter) o = (iter, record o { target = arg })

unfoldable pub set_rounds : Option ℕ → Options → Options
set_rounds none o = o
set_rounds (some r) o = record o { rounds = r }

unfoldable pub take_rounds : List Text → Options → List Text × Options
unfolding set_rounds parse_usize
take_rounds [] o = ([], o)
take_rounds (arg ∷ iter) o = (iter, set_rounds (parse_usize arg) o)

-- One round of the loop, for the argument that the iterator yielded.
unfoldable pub take_arg : Text → List Text → Options → List Text × Options
unfolding take_target take_rounds
take_arg arg iter o =
    let (iter1, o1) = if equal arg (codes "--target") then take_target iter o else (iter, o) in
    let (iter2, o2) = if equal arg (codes "--rounds") then take_rounds iter1 o1 else (iter1, o1) in
    let o3 = if equal arg (codes "--heap-alloc") then record o2 { heap_alloc = true } else o2 in
    (iter2, if equal arg (codes "--dynamic") then record o3 { dynamic = true } else o3)

-- The loop, for at most `fuel` rounds.
unfoldable pub collect_loop : ℕ → List Text → Options → Option Options
unfolding take_arg
collect_loop zero iter o = none
collect_loop (suc fuel) [] o = some o
collect_loop (suc fuel) (arg ∷ iter) o =
    let next = take_arg arg iter o in collect_loop fuel next.0 next.1

unfoldable pub file_path : Option Text → Text
file_path none = codes "./sample/sample.txt"
file_path (some path) = path ++ codes "/sample/sample.txt"

unfoldable pub with_path : Text → Option Options → Option (Text × Options)
with_path path none = none
with_path path (some o) = some (path, o)

-- `collect_arg`, with the current directory if it is known and a text, and the arguments of the
-- process, its name first. A round takes at least one argument.
unfoldable pub collect_arg : Option Text → List Text → Options → Option (Text × Options)
unfolding collect_loop file_path with_path
collect_arg path args o = with_path (file_path path) (collect_loop (suc (length args)) args o)
