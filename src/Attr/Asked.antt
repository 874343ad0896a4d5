-- ===== src/Attr/Asked.antt =====
-- src/attr.c: the changes that a request for attributes asks for, apart from how the code makes them.
use nfsrods.Prelude.{
  ℕ, ◌==◌, ◌≡◌, ◌≢◌, ◌⊎◌, ◌∙◌, ap, inl, inr, refl, true, false, List, [], ◌∷◌, ◌++◌, Option, none,
  some, arith, Bool-cases, Option-cases,
}
use mathlib.Core.List.{append_assoc}
use nfsrods.Backend.{Stat}
use nfsrods.Attr.Put.{
  Sattr3, Change, Answers, set_time, wanted, SetTime, size_args, mode_args, chown_args, new_uid,
  time_of, is_unchanged,
}

-- What the change of a number that may be asked for is: none, or one call with that number.
abbrev pub IsOne : (ℕ → Change) → Option ℕ → List Change → Type 0
IsOne call asked part =
    ((asked ≡ none) × (part ≡ [])) ⊎ ((n : ℕ) × (asked ≡ some n) × (part ≡ call n ∷ []))

-- The uid that `chown` gets: -1 if none is asked for or the file has it, else the one asked for.
abbrev pub IsNewUid : Stat → Option ℕ → Option ℕ → Type 0
IsNewUid buf asked uid =
    ((asked ≡ none) × (uid ≡ none))
    ⊎ (((asked ≡ some buf.uid) × (uid ≡ none))
        ⊎ ((id : ℕ) × (asked ≡ some id) × (id ≢ buf.uid) × (uid ≡ some id)))

-- No owner and no group is asked for, or one call sets both.
abbrev pub IsOwner : Stat → Sattr3 → List Change → Type 0
IsOwner buf new part =
    ((new.uid ≡ none) × (new.gid ≡ none) × (part ≡ []))
    ⊎ ((((n : ℕ) × (new.uid ≡ some n)) ⊎ ((n : ℕ) × (new.gid ≡ some n)))
        × ((uid : Option ℕ) × IsNewUid buf new.uid uid × (part ≡ Change.chown uid new.gid ∷ [])))

-- The time that `utime` gets: that of the file, of the server or of the client.
abbrev pub IsTime : ℕ → ℕ → SetTime → ℕ → Type 0
IsTime now old asked time =
    ((asked ≡ SetTime.dont_change) × (time ≡ old))
    ⊎ (((asked ≡ SetTime.set_to_server_time) × (time ≡ now))
        ⊎ ((s : ℕ) × (asked ≡ SetTime.set_to_client_time s) × (time ≡ s)))

-- Neither time is to change, or one call sets both, where one of them is to change.
abbrev pub AreTimes : ℕ → Stat → Sattr3 → List Change → Type 0
AreTimes now buf new part =
    ((new.atime ≡ SetTime.dont_change) × (new.mtime ≡ SetTime.dont_change) × (part ≡ []))
    ⊎ (((new.atime ≢ SetTime.dont_change) ⊎ (new.mtime ≢ SetTime.dont_change))
        × ((a : ℕ) × (m : ℕ) × IsTime now buf.atime new.atime a
            × IsTime now buf.mtime new.mtime m
            × (part ≡ Change.utime a m ∷ [])))

-- The changes that are made for a file with the attributes `buf` and a request `new` at a time.
pub record Asked (now : ℕ) (buf : Stat) (new : Sattr3) (made : List Change) : Type 0 where
  pub size_part : List Change
  pub owner_part : List Change
  pub mode_part : List Change
  pub time_part : List Change
  pub size : IsOne Change.truncate new.size size_part
  pub owner : IsOwner buf new owner_part
  pub mode : IsOne Change.chmod new.mode mode_part
  pub times : AreTimes now buf new time_part
  pub whole : made ≡ size_part ++ (owner_part ++ (mode_part ++ time_part))

size_args-IsOne : (new : Sattr3) → IsOne Change.truncate new.size (size_args new)
size_args-IsOne new = elim (Option-cases new.size) [
  | inl e ↦ inl (e, rw e refl)
  | inr (n, e) ↦ inr (n, e, rw e refl)
]

mode_args-IsOne : (new : Sattr3) → IsOne Change.chmod new.mode (mode_args new)
mode_args-IsOne new = elim (Option-cases new.mode) [
  | inl e ↦ inl (e, rw e refl)
  | inr (n, e) ↦ inr (n, e, rw e refl)
]

new_uid-IsNewUid : (buf : Stat) (asked : Option ℕ) → IsNewUid buf asked (new_uid buf asked)
new_uid-IsNewUid buf none = inl (refl, refl)
new_uid-IsNewUid buf (some id) = elim (Bool-cases (id == buf.uid)) [
  | inl e ↦ inr (inl (ground (arith, e), rw e refl))
  | inr e ↦ inr (inr (id, refl, ground (arith, e), rw e refl))
]

chown_args-IsOwner : (buf : Stat) (new : Sattr3) → IsOwner buf new (chown_args buf new)
unfolding chown_args
chown_args-IsOwner buf new = elim (Option-cases new.uid) [
  | inr (u, e) ↦
      inr (inl (u, e), (new_uid buf new.uid, new_uid-IsNewUid buf new.uid, ground (arith, e)))
  | inl e ↦ elim (Option-cases new.gid) [
    | inl f ↦ inl (e, f, ground (arith, e, f))
    | inr (g, f) ↦
        inr (inr (g, f), (new_uid buf new.uid, new_uid-IsNewUid buf new.uid, ground (arith, e, f)))
  ]
]

time_of-IsTime : (now old : ℕ) (asked : SetTime) → IsTime now old asked (time_of now asked old)
time_of-IsTime now old SetTime.dont_change = inl (refl, refl)
time_of-IsTime now old SetTime.set_to_server_time = inr (inl (refl, refl))
time_of-IsTime now old (SetTime.set_to_client_time s) = inr (inr (s, refl, refl))

is_unchanged-cases :
    (t : SetTime)
    → ((is_unchanged t ≡ true) × (t ≡ SetTime.dont_change))
      ⊎ ((is_unchanged t ≡ false) × (t ≢ SetTime.dont_change))
is_unchanged-cases SetTime.dont_change = inl (refl, refl)
is_unchanged-cases SetTime.set_to_server_time = inr (refl, λ e. ground (arith, e))
is_unchanged-cases (SetTime.set_to_client_time s) = inr (refl, λ e. ground (arith, e))

set_time-AreTimes :
    (w : Answers) (buf : Stat) (new : Sattr3) → AreTimes w.now buf new (set_time w buf new)
unfolding set_time
set_time-AreTimes w buf new = elim (is_unchanged-cases new.atime) [
  | inl (a, e) ↦ elim (is_unchanged-cases new.mtime) [
    | inl (b, f) ↦ inl (e, f, rw (a, b) refl)
    | inr (b, f) ↦ inr (inr f, made (ground (arith, b)))
  ]
  | inr (a, e) ↦ inr (inl e, made (ground (arith, a)))
]
  where
    made :
        set_time w buf new
          ≡ Change.utime (time_of w.now new.atime buf.atime) (time_of w.now new.mtime buf.mtime)
            ∷ []
        → (a : ℕ) × (m : ℕ) × IsTime w.now buf.atime new.atime a
          × IsTime w.now buf.mtime new.mtime m
          × (set_time w buf new ≡ Change.utime a m ∷ [])
    made e = (
      time_of w.now new.atime buf.atime,
      time_of w.now new.mtime buf.mtime,
      time_of-IsTime w.now buf.atime new.atime,
      time_of-IsTime w.now buf.mtime new.mtime,
      e,
    )

-- The changes that the code puts together are those asked for.
pub wanted-Asked :
    (w : Answers) (buf : Stat) (new : Sattr3) (made : List Change)
    → made ≡ wanted buf new ++ set_time w buf new
    → Asked w.now buf new made
unfolding wanted
wanted-Asked w buf new made e = record {
  size_part = size_args new;
  owner_part = chown_args buf new;
  mode_part = mode_args new;
  time_part = set_time w buf new;
  size = size_args-IsOne new;
  owner = chown_args-IsOwner buf new;
  mode = mode_args-IsOne new;
  times = set_time-AreTimes w buf new;
  whole =
      e
      ∙ append_assoc (size_args new) (chown_args buf new ++ mode_args new) (set_time w buf new)
      ∙ ap (λ r. size_args new ++ r)
          (append_assoc (chown_args buf new) (mode_args new) (set_time w buf new));
}
