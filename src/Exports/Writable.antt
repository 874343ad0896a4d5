-- ===== src/Exports/Writable.antt =====
-- src/Config/exports.y: the option word that a list of options comes to.
use nfsrods.Prelude.{
  ℕ, ◌≡◌, refl, sym, ap, ◌∙◌, Bool, true, false, if◌then◌else◌, inl, inr, List, [], ◌∷◌, arith,
  Bool-cases, test_bit, set_bit, bytes, str_eq, str_eq→≡,
}
use mathlib.Core.Path.{subst}
use nfsrods.User.Ids.{opt_rw}
use nfsrods.Exports.Options.{add_option, clear_bit}

-- `rw` and `ro` among the options: what the last of them says, or `before`.
abbrev pub last_rw : List (List ℕ) → Bool → Bool
last_rw [] before = before
last_rw (o ∷ opts) before =
    last_rw opts
      (if str_eq o (bytes "rw") then true else if str_eq o (bytes "ro") then false else before)

abbrev pub add_options : List (List ℕ) → ℕ → ℕ
add_options [] options = options
add_options (o ∷ opts) options = add_options opts (add_option o options)

by_name : (o lit : List ℕ) (P : List ℕ → Type 0) → P lit → (str_eq o lit ≡ false → P o) → P o
by_name o lit P named others = elim (Bool-cases (str_eq o lit)) [
  | inl e ↦ subst P (sym (str_eq→≡ o lit e)) named
  | inr e ↦ others e
]

set0 : (x : ℕ) → test_bit (set_bit x 0) 2 ≡ test_bit x 2
set0 x = ground arith

clear0 : (x : ℕ) → test_bit (clear_bit x 0) 2 ≡ test_bit x 2
clear0 x = ground arith

set1 : (x : ℕ) → test_bit (set_bit x 1) 2 ≡ test_bit x 2
set1 x = ground arith

clear1 : (x : ℕ) → test_bit (clear_bit x 1) 2 ≡ test_bit x 2
clear1 x = ground arith

set2 : (x : ℕ) → test_bit (set_bit x 2) 2 ≡ true
set2 x = ground arith

clear2 : (x : ℕ) → test_bit (clear_bit x 2) 2 ≡ false
clear2 x = ground arith

set3 : (x : ℕ) → test_bit (set_bit x 3) 2 ≡ test_bit x 2
set3 x = ground arith

clear3 : (x : ℕ) → test_bit (clear_bit x 3) 2 ≡ test_bit x 2
clear3 x = ground arith

set4 : (x : ℕ) → test_bit (set_bit x 4) 2 ≡ test_bit x 2
set4 x = ground arith

clear4 : (x : ℕ) → test_bit (clear_bit x 4) 2 ≡ test_bit x 2
clear4 x = ground arith

abbrev Says : ℕ → List ℕ → Type 0
Says options o = test_bit (add_option o options) opt_rw ≡ (
    if str_eq o (bytes "rw")
    then true
    else if str_eq o (bytes "ro")
    then false
    else test_bit options opt_rw)

add_option-rw : (o : List ℕ) (options : ℕ) → Says options o
unfolding add_option
add_option-rw o options = by_name o (bytes "no_root_squash") (Says options) (set0 options) (λ a.
    by_name o (bytes "root_squash") (Says options) (clear0 options) (λ b.
      by_name o (bytes "all_squash") (Says options) (set1 options) (λ c.
        by_name o (bytes "no_all_squash") (Says options) (clear1 options) (λ d.
          by_name o (bytes "rw") (Says options) (set2 options) (λ e.
            by_name o (bytes "ro") (Says options) (clear2 options) (λ f.
              by_name o (bytes "removable") (Says options) (set3 options) (λ g.
                by_name o (bytes "fixed") (Says options) (clear3 options) (λ h.
                  by_name o (bytes "insecure") (Says options) (set4 options) (λ i.
                    by_name o (bytes "secure") (Says options) (clear4 options)
                      (λ j. rw (a, b, c, d, e, f, g, h, i, j) refl))))))))))

-- After any options, the export is writable if the last of `rw` and `ro` among them is `rw`, and if
-- neither is among them, as before; no other option touches that.
pub add_options-rw :
    (opts : List (List ℕ)) (options : ℕ)
    → test_bit (add_options opts options) opt_rw ≡ last_rw opts (test_bit options opt_rw)
add_options-rw [] options = refl
add_options-rw (o ∷ opts) options =
    add_options-rw opts (add_option o options) ∙ ap (last_rw opts) (add_option-rw o options)
