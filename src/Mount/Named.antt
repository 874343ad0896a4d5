-- ===== src/Mount/Named.antt =====
-- src/mount.c: what the argument of MNT names, and when it authenticates.
use nfsrods.Prelude.{
  ℕ, suc, ◌≡◌, ap, refl, true, false, ◌⊎◌, inl, inr, List, [], ◌∷◌, ◌++◌, some, length, take, drop,
  get_elem?, bytes, str_eq, str_eq→≡, arith, Bool-cases,
}
use nfsrods.Backend.{FilePath}
use nfsrods.Password.{mnt_cmd_argument}
use nfsrods.Password.Laws.{mnt_cmd_argument_splits}
use nfsrods.Exports.{EItem}
use nfsrods.Exports.Options.{password_maxlen}
use nfsrods.Exports.Lookup.{Last, exports_options, export_point, starts_with}
use nfsrods.Exports.Longest.{Taken, exports_options_cases}
use nfsrods.Mount.Mnt.{Caller, State, authenticate}

abbrev pub at_password : List ℕ
at_password = bytes "@password:"

abbrev pub at_otp : List ℕ
at_otp = bytes "@otp:"

-- The argument is the path, or a command with what is given to it, and the path.
abbrev pub Asked : FilePath → FilePath → Type 0
Asked argp dpath =
    (argp ≡ dpath)
    ⊎ ((given : List ℕ) × ((argp ≡ at_password ++ (given ++ dpath))
          ⊎ (argp ≡ at_otp ++ (given ++ dpath))))

-- The argument gives the password of the export that the path is looked up in, or what is computed
-- from it and the nonce.
pub record Authenticated (c : Caller) (nonce : List ℕ) (argp dpath : FilePath) : Type 0 where
  pub last : Last
  pub taken :
      Taken c.export_list dpath c.remote (exports_options c.export_list (some dpath) c.remote last)
  pub given : List ℕ
  pub right :
      ((argp ≡ at_password ++ (given ++ dpath)) × (given ≡ taken.chosen.password))
      ⊎ ((argp ≡ at_otp ++ (given ++ dpath))
          × (take 32 (c.otp_digest nonce taken.chosen.password) ≡ take 32 given))

starts_with-drop :
    (prefix s : List ℕ) → starts_with prefix s ≡ true → s ≡ prefix ++ drop (length prefix) s
starts_with-drop [] s h = refl
starts_with-drop (c ∷ prefix) [] h = absurd (ground (arith, h))
starts_with-drop (c ∷ prefix) (d ∷ s) h =
    let rest = starts_with-drop prefix s (ground (arith, h)) in
    let same : d ≡ c = ground (arith, h) in cc

-- A command is followed by its argument and the path.
mnt_cmd_argument-split :
    (argp cmd : List ℕ) (n : ℕ)
    → starts_with cmd argp ≡ true
    → argp ≡ cmd ++ ((mnt_cmd_argument argp cmd n).0 ++ (mnt_cmd_argument argp cmd n).1)
mnt_cmd_argument-split argp cmd n h =
    let (whole, short) = mnt_cmd_argument_splits argp cmd n in
    let begins = starts_with-drop cmd argp h in cc

-- An export point is the path of an export of the list.
pub export_point-listed :
    (items : List EItem) (path : FilePath)
    → export_point items path ≡ true
    → (i : ℕ) × (item : EItem) × (get_elem? items i ≡ some item) × (item.path ≡ path)
unfolding export_point
export_point-listed [] path h = absurd (ground (arith, h))
export_point-listed (item ∷ items) path h = elim (Bool-cases (str_eq path item.path)) [
  | inl e ↦ (0, item, refl, ground (arith, str_eq→≡ path item.path e))
  | inr e ↦
      let (i, other, at, same) = export_point-listed items path (ground (arith, h, e)) in
      (suc i, other, at, same)
]

authenticate_password :
    (c : Caller) (argp : FilePath) (st : State)
    → starts_with at_password argp ≡ true
    → Asked argp (authenticate c argp st).0.1
      × (((authenticate c argp st).0.0 ≡ false)
          ⊎ Authenticated c st.nonce argp (authenticate c argp st).0.1)
unfolding authenticate
authenticate_password c argp st h =
    let pw = (mnt_cmd_argument argp at_password password_maxlen).0 in
    let path = (mnt_cmd_argument argp at_password password_maxlen).1 in
    let split = mnt_cmd_argument-split argp at_password password_maxlen h in
    elim (exports_options_cases c.export_list path c.remote st.last) [
      | inl (e, none_stored) ↦ rw (h, e) (inr (pw, inl split), inl refl)
      | inr t ↦
          let opts = ap (λ k. k.exports_opts) t.is_last in
          let stored = t.is_password in
          elim (Bool-cases (str_eq t.chosen.password pw)) [
            | inr wrong ↦ rw (h, opts, stored, wrong) (inr (pw, inl split), inl refl)
            | inl right ↦
                rw (h, opts, stored)
                  (
                    inr (pw, inl split),
                    inr (record {
                      last = st.last;
                      taken = t;
                      given = pw;
                      right = inl (split, ground (arith, str_eq→≡ t.chosen.password pw right));
                    }),
                  )
          ]
    ]

authenticate_otp :
    (c : Caller) (argp : FilePath) (st : State)
    → starts_with at_password argp ≡ false
    → starts_with at_otp argp ≡ true
    → Asked argp (authenticate c argp st).0.1
      × (((authenticate c argp st).0.0 ≡ false)
          ⊎ Authenticated c st.nonce argp (authenticate c argp st).0.1)
unfolding authenticate
authenticate_otp c argp st other h =
    let otp = (mnt_cmd_argument argp at_otp password_maxlen).0 in
    let path = (mnt_cmd_argument argp at_otp password_maxlen).1 in
    let split = mnt_cmd_argument-split argp at_otp password_maxlen h in
    elim (exports_options_cases c.export_list path c.remote st.last) [
      | inl (e, none_stored) ↦ rw (other, h, e) (inr (otp, inr split), inl refl)
      | inr t ↦
          let opts = ap (λ k. k.exports_opts) t.is_last in
          let stored = t.is_password in
          let digest = take 32 (c.otp_digest st.nonce t.chosen.password) in
          elim (Bool-cases (str_eq digest (take 32 otp))) [
            | inr wrong ↦ rw (other, h, opts, stored, wrong) (inr (otp, inr split), inl refl)
            | inl right ↦
                rw (other, h, opts, stored)
                  (
                    inr (otp, inr split),
                    inr (record {
                      last = st.last;
                      taken = t;
                      given = otp;
                      right = inr (split, str_eq→≡ digest (take 32 otp) right);
                    }),
                  )
          ]
    ]

authenticate_plain :
    (c : Caller) (argp : FilePath) (st : State)
    → starts_with at_password argp ≡ false
    → starts_with at_otp argp ≡ false
    → Asked argp (authenticate c argp st).0.1
      × (((authenticate c argp st).0.0 ≡ false)
          ⊎ Authenticated c st.nonce argp (authenticate c argp st).0.1)
unfolding authenticate
authenticate_plain c argp st other plain = rw (other, plain) (inl refl, inl refl)

-- The argument of MNT names the path that is left of it, and an authenticated caller has given the
-- password of the export that this path is looked up in.
pub authenticate-Authenticated :
    (c : Caller) (argp : FilePath) (st : State)
    → Asked argp (authenticate c argp st).0.1
      × (((authenticate c argp st).0.0 ≡ false)
          ⊎ Authenticated c st.nonce argp (authenticate c argp st).0.1)
authenticate-Authenticated c argp st = elim (Bool-cases (starts_with at_password argp)) [
  | inl h ↦ authenticate_password c argp st h
  | inr other ↦ elim (Bool-cases (starts_with at_otp argp)) [
    | inl h ↦ authenticate_otp c argp st other h
    | inr plain ↦ authenticate_plain c argp st other plain
  ]
]
