-- ===== src/Wizard/Guard.antt =====
-- Which requests the guard of the wizard's pages lets through, after any history of the table.
use arguss.Base.{
  ℕ, ◌<◌, ◌≡◌, ◌↔◌, refl, sym, subst, arith, true, false, Option, none, some, List, [], leb,
  is_empty, Bool-cases, inl, inr, Text, is_in, lookup,
}
use arguss.Wizard.{
  Row, WizardSession, Table, unexpired, load_session, Cookies, session, redirect_for,
  expired_redirect, guard_step, guard_token, get_or_redirect_wizard_session,
}
use arguss.Wizard.Refinement.{Op, run_all, effects, histories-effects}

-- The session `s` is the one of the cookie, and it is alive and at an allowed step.
pub record Admitted (allowed_steps : List Text) (cookies : Cookies) (now : ℕ) (row : Option Row)
    (s : WizardSession) : Type 0 where
  pub named : cookies.wizard_session ≡ some s.token
  pub some_token : is_empty s.token ≡ false
  pub stored : row ≡ some s.row
  pub alive : now < s.row.expires_at
  pub allowed : is_in s.row.current_step allowed_steps ≡ true

module _ (allowed_steps : List Text) (cookies : Cookies) (now : ℕ) where
  redirected : (o : Option Text) (s : WizardSession) → redirect_for o ≡ session s → ⊥
  unfolding redirect_for
  redirected none s h = cc
  redirected (some last) s h = elim (Bool-cases (is_empty last)) [
    | inl y ↦ cc (rw y at h)
    | inr n ↦ cc (rw n at h)
  ]

  of_row :
      (token : Text) (o : Option Row) (s : WizardSession)
      → cookies.wizard_session ≡ some token
      → is_empty token ≡ false
      → (guard_step allowed_steps cookies (unexpired token now o) ≡ session s)
      → (s.token ≡ token) × Admitted allowed_steps cookies now o s
  unfolding guard_step unexpired expired_redirect
  of_row token none s c e h = absurd (redirected _ s h)
  of_row token (some row) s c e h = elim (Bool-cases (leb row.expires_at now)) [
    | inl y ↦ absurd (redirected _ s (rw y at h))
    | inr n ↦ elim (Bool-cases (is_in row.current_step allowed_steps)) [
      | inr m ↦ absurd (redirected _ s (rw (n, m) at h))
      | inl m ↦
          let q : record { token = token; row = row } ≡ s = cc (rw (n, m) at h) in
          subst (λ x. (x.token ≡ token) × Admitted allowed_steps cookies now (some row) x) q
            (
              refl,
              record {
                named = c;
                some_token = e;
                stored = refl;
                alive = ground arith;
                allowed = m;
              },
            )
    ]
  ]

  of_token :
      (table : Table) (o : Option Text) (s : WizardSession)
      → cookies.wizard_session ≡ o
      → guard_token allowed_steps cookies now table o ≡ session s
      → Admitted allowed_steps cookies now (lookup s.token table) s
  unfolding guard_token load_session expired_redirect
  of_token table none s c h = absurd (redirected _ s h)
  of_token table (some token) s c h = elim (Bool-cases (is_empty token)) [
    | inl y ↦ absurd (redirected _ s (rw y at h))
    | inr n ↦
        let (same, a) = of_row token (lookup token table) s c n (rw n at h) in
        subst (λ t. Admitted allowed_steps cookies now (lookup t table) s) (sym same) a
  ]

  to_session :
      (table : Table) (s : WizardSession)
      → Admitted allowed_steps cookies now (lookup s.token table) s
      → get_or_redirect_wizard_session allowed_steps cookies now table ≡ session s
  unfolding get_or_redirect_wizard_session guard_token load_session guard_step unexpired
  to_session table s a =
      let live : leb s.row.expires_at now ≡ false = ground (arith, a.alive) in
      rw (a.named, a.some_token, a.stored, live, a.allowed) refl

-- After any operations on an empty table, a page of the wizard is served to a session exactly when
-- the cookie names its token, which is not empty, the operations left that session under that token, it has not
-- expired and its step is one of those that the page allows.
pub guard_iff :
    (allowed_steps : List Text) (cookies : Cookies) (now : ℕ) (ops : List Op) (s : WizardSession)
    → (get_or_redirect_wizard_session allowed_steps cookies now (run_all ops []) ≡ session s)
      ↔ Admitted allowed_steps cookies now (effects ops s.token none) s
unfolding get_or_redirect_wizard_session
guard_iff allowed_steps cookies now ops s =
    let e = histories-effects ops s.token in
    (
      λ h.
          subst (λ o. Admitted allowed_steps cookies now o s) e
            (of_token allowed_steps cookies now (run_all ops []) cookies.wizard_session s refl h),
      λ a.
          to_session allowed_steps cookies now (run_all ops []) s
            (subst (λ o. Admitted allowed_steps cookies now o s) (sym e) a),
    )
