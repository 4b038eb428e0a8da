-- ===== src/Conf/Directives/First.antt =====
-- Which command a directive reaches, and what it takes for `handle_` to return OK.
use Prim.Native.Nat.{bit_and}
use lingx.Base.{
  ℕ, ◌≡◌, refl, sym, ap, ◌∙◌, ◌≢◌, ◌⊎◌, inl, inr, Bool, true, false, not, ◌&&◌, ◌||◌, Option, none,
  some, List, [], ◌∷◌, ◌++◌, arith, ◌==◌, if◌then◌else◌, Bool-cases, length,
}
use lingx.Conf.Directives.{
  checked, returned, has_flag, ok, conf_ok, conf_error, conf_block, Command, Module, DirectiveError,
  not_terminated, no_opening, invalid_arguments, not_allowed, unknown, SetResult, text, Slot, Place,
  bytes_eq, count_fits, check, slot, name_of, all_commands, Handled, error, in_place, run_command,
  handle_loop, handle,
}

-- The first command of this name in the right place.
unfoldable pub find_command : Place → List ℕ → List (Module × Command) → Option (Module × Command)
find_command p name [] = none
find_command p name ((mod_, cmd) ∷ rest) =
    if bytes_eq name cmd.name && in_place p mod_ cmd
    then some (mod_, cmd)
    else find_command p name rest

unfoldable pub known : List ℕ → List (Module × Command) → Bool
known name [] = false
known name ((mod_, cmd) ∷ rest) = bytes_eq name cmd.name || known name rest

passes :
    (c b n : Bool)
    → (if not c && b
        then some not_terminated
        else if c && not b
        then some no_opening
        else if not n
        then some invalid_arguments
        else none)
      ≡ none
    → (c ≡ b) × (n ≡ true)
passes false false false e = cc e
passes false false true e = (refl, refl)
passes false true n e = cc e
passes true false n e = cc e
passes true true false e = cc e
passes true true true e = (refl, refl)

pub bytes_eq_refl : (xs : List ℕ) → bytes_eq xs xs ≡ true
unfolding bytes_eq
bytes_eq_refl [] = refl
bytes_eq_refl (x ∷ xs) = ground (arith, bytes_eq_refl xs)

and_parts : (b c : Bool) → b && c ≡ true → (b ≡ true) × (c ≡ true)
and_parts true c h = (refl, h)
and_parts false c h = cc h

bytes_eq-same : (xs ys : List ℕ) → bytes_eq xs ys ≡ true → xs ≡ ys
unfolding bytes_eq
bytes_eq-same [] [] h = refl
bytes_eq-same [] (y ∷ ys) h = cc h
bytes_eq-same (x ∷ xs) [] h = cc h
bytes_eq-same (x ∷ xs) (y ∷ ys) h =
    let (a, b) = and_parts (x == y) (bytes_eq xs ys) h in
    let head_same : x ≡ y = ground (arith, a) in rw (head_same, bytes_eq-same xs ys b) refl

module _ {S : Type 0} (set_ : Command → Slot → S → SetResult × S) (p : Place) (args : List (List ℕ))
    (block : Bool) where
  -- What the first command found does, or why there is none.
  unfoldable pub run_first : Bool → Option (Module × Command) → S → Handled × S
  run_first named (some (mod_, cmd)) s = run_command set_ p args block mod_ cmd s
  run_first named none s = (error (if named then not_allowed else unknown), s)

  handle_loop-run_first :
      (found : Bool) (cmds : List (Module × Command)) (s : S)
      → handle_loop set_ p args block found cmds s
        ≡ run_first (found || known (name_of args) cmds) (find_command p (name_of args) cmds) s
  unfolding handle_loop run_first find_command known
  handle_loop-run_first found [] s = ground arith
  handle_loop-run_first found ((mod_, cmd) ∷ rest) s =
      ground (arith, handle_loop-run_first found rest s, handle_loop-run_first true rest s)

  -- `handle_` is the run of the command that `find_command` finds.
  pub handle-run_first :
      (modules : List Module) (s : S)
      → handle set_ p args block modules s
        ≡ run_first
            (known (name_of args) (all_commands modules))
            (find_command p (name_of args) (all_commands modules))
            s
  unfolding handle
  handle-run_first modules s = handle_loop-run_first false (all_commands modules) s

  returned-ok :
      (r : SetResult × S) (s' : S) → returned set_ p args block r ≡ (ok, s') → r ≡ (conf_ok, s')
  unfolding returned
  returned-ok (conf_ok, s) s' e = ap (λ (q : Handled × S). (conf_ok, q.1)) e
  returned-ok (conf_error, s) s' e = cc (ap (λ (q : Handled × S). q.0) e)
  returned-ok (text m, s) s' e = cc (ap (λ (q : Handled × S). q.0) e)

  checked-ok :
      (c : Option DirectiveError) (mod_ : Module) (cmd : Command) (s s' : S)
      → checked set_ p args block c mod_ cmd s ≡ (ok, s')
      → (c ≡ none) × (set_ cmd (slot p mod_ cmd) s ≡ (conf_ok, s'))
  unfolding checked
  checked-ok none mod_ cmd s s' e = (refl, returned-ok _ s' e)
  checked-ok (some c) mod_ cmd s s' e = cc (ap (λ (q : Handled × S). q.0) e)

  -- The command has a block if and only if the token opened one, and takes so many arguments.
  abbrev pub Accepts : Command → Type 0
  Accepts cmd = (has_flag cmd.type conf_block ≡ block) × (count_fits cmd.type (length args) ≡ true)

  check-Accepts : (cmd : Command) → check cmd block (length args) ≡ none → Accepts cmd
  unfolding check
  check-Accepts cmd e =
      passes (has_flag cmd.type conf_block) block (count_fits cmd.type (length args)) e

  run_first-ok :
      (named : Bool) (found : Option (Module × Command)) (s s' : S)
      → run_first named found s ≡ (ok, s')
      → (mod_ : Module) × (cmd : Command) × (found ≡ some (mod_, cmd))
        × Accepts cmd
        × (set_ cmd (slot p mod_ cmd) s ≡ (conf_ok, s'))
  unfolding run_first run_command
  run_first-ok named none s s' e = cc (ap (λ (q : Handled × S). q.0) e)
  run_first-ok named (some (mod_, cmd)) s s' e =
      let k = checked-ok (check cmd block (length args)) mod_ cmd s s' e in
      (mod_, cmd, refl, check-Accepts cmd k.0, k.1)

  -- `handle_` returns OK only if the first command in place takes the block or the semicolon and
  -- the number of arguments, and its setter was run at its slot and returned CONF_OK; the state is
  -- then the setter's.
  pub handle-ok :
      (modules : List Module) (s s' : S)
      → handle set_ p args block modules s ≡ (ok, s')
      → (mod_ : Module) × (cmd : Command) × (find_command p (name_of args) (all_commands modules)
          ≡ some (mod_, cmd))
        × Accepts cmd
        × (set_ cmd (slot p mod_ cmd) s ≡ (conf_ok, s'))
  handle-ok modules s s' e =
      run_first-ok (known (name_of args) (all_commands modules)) _ s s'
        (sym (handle-run_first modules s) ∙ e)

  -- Of a module and its command: the name is the directive's, the module is of the type that is
  -- configured, and the command may stand in the block being parsed.
  abbrev pub Fits : Module × Command → Type 0
  Fits (mod_, cmd) =
      (name_of args ≡ cmd.name) × (mod_.type ≡ p.module_type) × (bit_and cmd.type p.cmd_type ≢ 0)

  abbrev pub NoneFits : List (Module × Command) → Type 0
  NoneFits [] = Unit {0}
  NoneFits (mc ∷ rest) = (Fits mc → ⊥) × NoneFits rest

  abbrev pub IsNamed : List (Module × Command) → Type 0
  IsNamed [] = ⊥
  IsNamed (mc ∷ rest) = (name_of args ≡ mc.1.name) ⊎ IsNamed rest

  abbrev matches : Module × Command → Bool
  matches (mod_, cmd) = bytes_eq (name_of args) cmd.name && in_place p mod_ cmd

  matches-Fits :
      (mc : Module × Command) → (matches mc ≡ true → Fits mc) × (Fits mc → matches mc ≡ true)
  unfolding in_place has_flag
  matches-Fits (mod_, cmd) = (
    λ h.
        let (same, here) = and_parts (bytes_eq (name_of args) cmd.name) (in_place p mod_ cmd) h in
        (bytes_eq-same (name_of args) cmd.name same, ground (arith, here), ground (arith, here)),
    λ f. rw (← f.0, bytes_eq_refl (name_of args)) (ground (arith, f.1, f.2)),
  )

  find_command-first :
      (before after : List (Module × Command)) (mc : Module × Command)
      → NoneFits before
      → Fits mc
      → find_command p (name_of args) (before ++ mc ∷ after) ≡ some mc
  unfolding find_command
  find_command-first [] after mc n f = rw ((matches-Fits mc).1 f) refl
  find_command-first (x ∷ before) after mc n f = elim (Bool-cases (matches x)) [
    | inl e ↦ absurd (n.0 ((matches-Fits x).0 e))
    | inr e ↦ rw e (find_command-first before after mc n.1 f)
  ]

  find_command-none :
      (cmds : List (Module × Command)) → NoneFits cmds → find_command p (name_of args) cmds ≡ none
  unfolding find_command
  find_command-none [] n = refl
  find_command-none (x ∷ cmds) n = elim (Bool-cases (matches x)) [
    | inl e ↦ absurd (n.0 ((matches-Fits x).0 e))
    | inr e ↦ rw e (find_command-none cmds n.1)
  ]

  known-IsNamed :
      (cmds : List (Module × Command))
      → ((known (name_of args) cmds ≡ true) × IsNamed cmds)
        ⊎ ((known (name_of args) cmds ≡ false) × (IsNamed cmds → ⊥))
  unfolding known
  known-IsNamed [] = inr (refl, λ z. z)
  known-IsNamed ((mod_, cmd) ∷ rest) = elim (Bool-cases (bytes_eq (name_of args) cmd.name)) [
    | inl e ↦ inl (rw e refl, inl (bytes_eq-same _ _ e))
    | inr e ↦ elim (known-IsNamed rest) [
      | inl (k, n) ↦ inl (rw (e, k) refl, inr n)
      | inr (k, n) ↦ inr (
        rw (e, k) refl,
        λ z. elim z [
          | inl q ↦
              cc (sym e ∙ (ap (bytes_eq (name_of args)) (sym q) ∙ bytes_eq_refl (name_of args)))
          | inr q ↦ n q
        ],
      )
    ]
  ]

  -- `handle_` runs the first command, in the order of the modules and of their commands, that has
  -- the directive's name, whose module has the type that is configured, and whose type has a bit of
  -- the block being parsed.
  pub handle-first :
      (modules : List Module) (s : S) (before after : List (Module × Command)) (mod_ : Module)
      (cmd : Command)
      → all_commands modules ≡ before ++ (mod_, cmd) ∷ after
      → NoneFits before
      → Fits (mod_, cmd)
      → handle set_ p args block modules s ≡ run_command set_ p args block mod_ cmd s
  unfolding run_first
  handle-first modules s before after mod_ cmd at_ n f =
      handle-run_first modules s
      ∙ ap (λ found. run_first (known (name_of args) (all_commands modules)) found s)
          (ap (find_command p (name_of args)) at_ ∙ find_command-first before after (mod_, cmd) n f)

  -- Where no command of the name is of the module type and the block being parsed, `handle_` calls no
  -- setter: it logs that the directive is not allowed here if some command has its name, and that it
  -- is unknown if none has.
  pub handle-missing :
      (modules : List Module) (s : S)
      → NoneFits (all_commands modules)
      → (IsNamed (all_commands modules)
          × (handle set_ p args block modules s ≡ (error not_allowed, s)))
        ⊎ ((IsNamed (all_commands modules) → ⊥)
            × (handle set_ p args block modules s ≡ (error unknown, s)))
  unfolding run_first
  handle-missing modules s n =
      let missing = find_command-none (all_commands modules) n in
      elim (known-IsNamed (all_commands modules)) [
        | inl (k, named) ↦ inl (named, handle-run_first modules s ∙ rw (k, missing) refl)
        | inr (k, unnamed) ↦ inr (unnamed, handle-run_first modules s ∙ rw (k, missing) refl)
      ]
