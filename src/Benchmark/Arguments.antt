-- ===== src/Benchmark/Arguments.antt =====
-- What `collect_arg` makes of a command line.
use actix_send.Prelude.{
  ℕ, zero, suc, ◌≤◌, ◌<◌, ◌≡◌, refl, ◌∙◌, ap, Bool, true, false, ◌||◌, List, [], ◌∷◌, ◌++◌, Option,
  some, length, if◌then◌else◌, arith,
}
use actix_send.Shared.{usize_mod}
use actix_send.Text.{Text, codes, equal}
use actix_send.Benchmark.{
  Options, defaults, take_arg, take_target, take_rounds, set_rounds, parse_usize, collect_loop,
  collect_arg, file_path, with_path,
}
use actix_send.Benchmark.Decimal.{decimal, parse_usize-decimal}

-- The command line that asks for the options, behind the name of the program.
abbrev pub flags : Options → List Text
flags o =
    (if o.heap_alloc then codes "--heap-alloc" ∷ [] else [])
    ++ (if o.dynamic then codes "--dynamic" ∷ [] else [])

abbrev pub command_line : Text → Options → List Text
command_line program o =
    program ∷ codes "--target" ∷ o.target ∷ codes "--rounds" ∷ decimal o.rounds ∷ flags o

-- One of the four words that `collect_arg` looks for.
abbrev pub is_word : Text → Bool
is_word arg =
    equal arg (codes "--target")
    || equal arg (codes "--rounds")
    || equal arg (codes "--heap-alloc")
    || equal arg (codes "--dynamic")

take_target-le : (iter : List Text) (o : Options) → length (take_target iter o).0 ≤ length iter
unfolding take_target
take_target-le [] o = omega arith
take_target-le (arg ∷ iter) o = omega arith

take_rounds-le : (iter : List Text) (o : Options) → length (take_rounds iter o).0 ≤ length iter
unfolding take_rounds
take_rounds-le [] o = omega arith
take_rounds-le (arg ∷ iter) o = omega arith

take_arg-le :
    (arg : Text) (iter : List Text) (o : Options) → length (take_arg arg iter o).0 ≤ length iter
unfolding take_arg
take_arg-le arg iter o = ground (
  arith,
  take_target-le iter o,
  take_rounds-le iter o,
  take_rounds-le (take_target iter o).0 (take_target iter o).1,
)

collect_loop_ends :
    (fuel : ℕ) (iter : List Text) (o : Options)
    → length iter < fuel
    → (r : Options) × (collect_loop fuel iter o ≡ some r)
unfolding collect_loop
collect_loop_ends zero iter o h = absurd (omega arith)
collect_loop_ends (suc fuel) [] o h = (o, refl)
collect_loop_ends (suc fuel) (arg ∷ iter) o h =
    let next = take_arg arg iter o in
    collect_loop_ends fuel next.0 next.1 (omega (arith, take_arg-le arg iter o))

-- `collect_arg` ends on every command line.
pub collect_arg_ends :
    (path : Option Text) (args : List Text) (o : Options)
    → (r : Options) × (collect_arg path args o ≡ some (file_path path, r))
unfolding collect_arg with_path
collect_arg_ends path args o =
    let (r, e) = collect_loop_ends (suc (length args)) args o (omega arith) in
    (r, ap (with_path (file_path path)) e)

take_other :
    (arg : Text) (iter : List Text) (o : Options)
    → is_word arg ≡ false
    → take_arg arg iter o ≡ (iter, o)
unfolding take_arg
take_other arg iter o e = ground (arith, e)

-- The words with a value, each at any fuel.
read_values :
    (k : ℕ) (target number : Text) (rest : List Text) (o : Options)
    → collect_loop (suc (suc k)) (codes "--target" ∷ target ∷ codes "--rounds" ∷ number ∷ rest) o
      ≡ collect_loop k rest (set_rounds (parse_usize number) (record o { target = target }))
unfolding collect_loop take_arg take_target take_rounds equal
read_values k target number rest o = refl

read_flags :
    (k : ℕ) (heap_alloc dynamic : Bool) (target : Text) (rounds : ℕ)
    → let o : Options = record {
      target = target;
      rounds = rounds;
      heap_alloc = heap_alloc;
      dynamic = dynamic;
    } in
      collect_loop (suc (suc (suc k))) (flags o) (record o { heap_alloc = false; dynamic = false })
      ≡ some o
unfolding collect_loop take_arg equal
read_flags k true true target rounds = refl
read_flags k true false target rounds = refl
read_flags k false true target rounds = refl
read_flags k false false target rounds = refl

-- The command line of any options whose number of rounds is a `usize`, behind any name of the program
-- that is none of the four words, gives these options, whatever the target is, even if it is one of
-- the words.
pub collect_arg-command_line :
    (path : Option Text) (program : Text) (o : Options)
    → is_word program ≡ false
    → o.rounds < usize_mod
    → collect_arg path (command_line program o) defaults ≡ some (file_path path, o)
unfolding collect_arg collect_loop set_rounds with_path
collect_arg-command_line path program o other small =
    let k = length (flags o) in
    let rest = codes "--target" ∷ o.target ∷ codes "--rounds" ∷ decimal o.rounds ∷ flags o in
    ap (with_path (file_path path)) (
      ap (λ (x : List Text × Options). collect_loop (suc (length rest)) x.0 x.1)
        (take_other program rest defaults other)
      ∙ read_values (suc (suc (suc k))) o.target (decimal o.rounds) (flags o) defaults
      ∙ ap
          (λ r.
            collect_loop (suc (suc (suc k))) (flags o)
              (set_rounds r (record defaults { target = o.target })))
          (parse_usize-decimal o.rounds small)
      ∙ read_flags k o.heap_alloc o.dynamic o.target o.rounds)
