-- ===== src/Nfs/Admitted.antt =====
-- src/nfs.c: which requests PREP lets through.
use nfsrods.Prelude.{
  ℕ, ◌==◌, ◌≡◌, ◌≢◌, refl, ap, ◌∙◌, ◌⊎◌, inl, inr, List, [], Option, none, some, arith, Bool-cases,
  Option-cases,
}
use nfsrods.Backend.{FilePath}
use nfsrods.Fh.Handles.{NfsFh}
use nfsrods.FhCache.Decomp.{fh_decomp}
use nfsrods.User.Switch.{Switched, switch_user}
use nfsrods.Exports.Lookup.{Last, exports_options, take_host, no_options}
use nfsrods.Exports.Longest.{Taken, exports_options_cases}
use nfsrods.Exports.{EItem}
use nfsrods.Nfs.Prep.{Env, State, point, prepared, look_up, as_user, admit, prep, path_or}

-- The handle led to the path, whose lookup took an export with a host that has the caller's address,
-- and the password hash in the handle is that host's.
pub record Admitted (env : Env) (fh : NfsFh) (st : State) (path : FilePath) : Type 0 where
  pub leads : (fh_decomp env.world (point env) st.cache st.stat_cache fh).result ≡ some path
  pub taken :
      Taken env.export_list path env.remote
        (exports_options env.export_list (some path) env.remote st.last)
  pub password_hash : fh.obj.pwhash ≡ taken.chosen.password_hash

no_path :
    (items : List EItem) (remote : ℕ) (last : Last)
    → (exports_options items none remote last).last.exports_opts ≡ none
unfolding exports_options no_options
no_path items remote last = refl

Switched-cases :
    (s : Switched) → (s ≡ Switched.exit) ⊎ ((t : _) × (p : _) × (s ≡ Switched.ready t p))
Switched-cases Switched.exit = inl refl
Switched-cases (Switched.ready t p) = inr (t, p, refl)

as_user-path :
    (env : Env) (path q : FilePath) (st now : State)
    → as_user env path st ≡ prepared q now
    → path ≡ q
unfolding as_user
as_user-path env path q st now h =
    elim (Switched-cases (switch_user st.settings env.singleuser env.host env.req st.process)) [
      | inl e ↦ absurd (ground (arith, h, e))
      | inr (s, p, e) ↦ ground (arith, h, e)
    ]

admit-prepared :
    (env : Env) (fh : NfsFh) (path : Option FilePath) (st now : State) (q : FilePath)
    → admit env fh path st ≡ prepared q now
    → (path_or [] path ≡ q)
      × (st.last.exports_opts ≢ none)
      × (fh.obj.pwhash ≡ st.last.export_password_hash)
unfolding admit
admit-prepared env fh path st now q h = elim (Option-cases st.last.exports_opts) [
  | inl e ↦ absurd (ground (arith, h, e, Option-cases path))
  | inr (opts, e) ↦ elim (Bool-cases (fh.obj.pwhash == st.last.export_password_hash)) [
    | inr f ↦ absurd (ground (arith, h, e, f))
    | inl f ↦ (
      as_user-path env (path_or [] path) q st now (ground (arith, h, e, f)),
      ground (arith, e),
      ground (arith, f),
    )
  ]
]

-- PREP gives a path only if it is the one that the handle leads to, and the path of an export of the
-- list is not empty and begins it, byte by byte, which has a host whose network the caller's address
-- lies in; and only if the 32-bit password hash in the handle is the one of the first such host.
pub prep-Admitted :
    (env : Env) (fh : NfsFh) (st now : State) (path : FilePath)
    → prep env fh st ≡ prepared path now
    → Admitted env fh st path
unfolding prep look_up take_host
prep-Admitted env fh st now path h =
    let looked = fh_decomp env.world (point env) st.cache st.stat_cache fh in
    let (same, exported, hash) =
      admit-prepared env fh (look_up env fh st).0 (look_up env fh st).1 now path h in
    elim (Option-cases looked.result) [
      | inl e ↦ absurd (exported (ground (arith, e, no_path env.export_list env.remote st.last)))
      | inr (p, e) ↦
          let is_path : p ≡ path = ground (arith, e, same) in
          let found : looked.result ≡ some path = ground (arith, e, is_path) in
          elim (exports_options_cases env.export_list path env.remote st.last) [
            | inl (f, pw) ↦ absurd (exported (ground (arith, found, f)))
            | inr t ↦ record {
              leads = found;
              taken = t;
              password_hash =
                  hash
                  ∙ ap
                      (λ r.
                        (exports_options env.export_list r env.remote
                          st.last).last.export_password_hash)
                      found
                  ∙ ap (λ k. k.export_password_hash) t.is_last;
            }
          ]
    ]
