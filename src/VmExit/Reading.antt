-- ===== src/VmExit/Reading.antt =====
-- The line on the exit code identifies it.
use tvmm.Base.{
  ℕ, ◌-◌, ◌^◌, ◌<◌, ◌≡◌, refl, inl, inr, ap, ◌∙◌, arith, List, [], ◌∷◌, ◌++◌, ◌==◌, if◌then◌else◌,
  Bool-cases, Option, some, none,
}
use tvmm.Base.Word.{w32, sign_extend}
use tvmm.Console.Hex.{hex, read_hex, read_hex-hex}
use tvmm.Console.Printer.{calls_text}
use tvmm.VmExit.{codes, literal, vmexit_calls}
use tvmm.VmExit.Report.{exit_text, exit_lem}

-- How the line on the exit code is read.
abbrev drop_last : List ℕ → List ℕ
drop_last [] = []
drop_last (c ∷ []) = []
drop_last (c ∷ d ∷ cs) = c ∷ drop_last (d ∷ cs)

abbrev to_int : Option ℕ → Option ℕ
to_int none = none
to_int (some w) = some (w32 w)

abbrev read_name : List ℕ → Option ℕ
read_name [] = none
read_name (c ∷ cs) =
    if c == 69
    then some 78
    else (if c == 78
        then some 1024
        else (if c == 73 then some (2 ^ 32 - 1) else to_int (read_hex (drop_last (c ∷ cs)))))

abbrev skip_head : List ℕ → List ℕ → List ℕ
skip_head [] t = t
skip_head (c ∷ cs) [] = []
skip_head (c ∷ cs) (d ∷ t) = skip_head cs t

abbrev pub read_exit : List ℕ → Option ℕ
read_exit t = read_name (skip_head (codes "#VMEXIT: ") t)

drop_last-snoc : (t : List ℕ) (c : ℕ) → drop_last (t ++ (c ∷ [])) ≡ t
drop_last-snoc [] c = refl
drop_last-snoc (x ∷ []) c = refl
drop_last-snoc (x ∷ y ∷ t) c = ap (λ r. x ∷ r) (drop_last-snoc (y ∷ t) c)

sign_extend-w32 : (x : ℕ) → x < 2 ^ 32 → (sign_extend x < 2 ^ 64) × (w32 (sign_extend x) ≡ x)
sign_extend-w32 x lt = (ground arith, ground arith)

exit_text-reads_back : (x : ℕ) → x < 2 ^ 32 → read_exit (exit_text x) ≡ some x
exit_text-reads_back x lt = elim (Bool-cases (x == 78)) [
  | inl pf ↦ rw pf (ap some (ground (arith, pf)))
  | inr a ↦ elim (Bool-cases (x == 1024)) [
    | inl npf ↦ rw (a, npf) (ap some (ground (arith, npf)))
    | inr b ↦ elim (Bool-cases (x == 2 ^ 32 - 1)) [
      | inl inv ↦ rw (a, b, inv) (ap some (ground (arith, inv)))
      | inr c ↦
          rw (a, b, c)
            (ap (λ t. to_int (read_hex t)) (drop_last-snoc (hex (sign_extend x)) 10)
              ∙ ap to_int (read_hex-hex (sign_extend x) (sign_extend-w32 x lt).0)
              ∙ ap some (sign_extend-w32 x lt).1)
    ]
  ]
]

-- From the line that `print_vmexit_exitcode` prints for an exit code, an `int`, the code is read
-- back. So no two codes have the same line.
pub vmexit_calls-reads_back :
    (x : ℕ) → x < 2 ^ 32 → read_exit (calls_text literal (vmexit_calls x)) ≡ some x
vmexit_calls-reads_back x lt = ap read_exit (exit_lem x) ∙ exit_text-reads_back x lt
