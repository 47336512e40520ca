-- ===== src/DeviceFlow/Entries.antt =====
-- Properties that hold of every entry of the store, and what the operations do to them.
use claude_code_portal.Prelude.{
  ℕ, ◌≡◌, String, Bool, true, List, [], ◌∷◌, some, ◌⊎◌, inl, inr, ◌==◌, retain, lookup, insert,
  Bool-cases, Option-cases, refl,
}
use mathlib.Core.Option.{some-injective}
use mathlib.Core.Path.{subst}
use claude_code_portal.ProxyTokens.{Crypto, find_user, create_proxy_token}
use claude_code_portal.DeviceFlow.{
  AppState, DeviceFlowState, is_open, change_first, find_value, completed, complete_device_flow,
}

abbrev pub AllEntries : (DeviceFlowState → Type 0) → List (ℕ × DeviceFlowState) → Type 0
AllEntries P [] = Unit {0}
AllEntries P ((k, s) ∷ m) = P s × AllEntries P m

module _ (P : DeviceFlowState → Type 0) where
  pub AllEntries-lookup :
      (k : ℕ) (s : DeviceFlowState) (m : List (ℕ × DeviceFlowState))
      → AllEntries P m
      → lookup k m ≡ some s
      → P s
  AllEntries-lookup k s [] h e = cc
  AllEntries-lookup k s ((j, t) ∷ m) h e = elim (Bool-cases (j == k)) [
    | inl same ↦ subst P (some-injective t s (rw same at e)) h.0
    | inr other ↦ AllEntries-lookup k s m h.1 (rw other at e)
  ]

  pub AllEntries-insert :
      (k : ℕ) (s : DeviceFlowState) (m : List (ℕ × DeviceFlowState))
      → AllEntries P m
      → P s
      → AllEntries P (insert k s m)
  AllEntries-insert k s [] h p = (p, tt)
  AllEntries-insert k s ((j, t) ∷ m) h p = elim (Bool-cases (j == k)) [
    | inl same ↦ rw same (p, h.1)
    | inr other ↦ rw other (h.0, AllEntries-insert k s m h.1 p)
  ]

  pub AllEntries-retain :
      (keep : ℕ × DeviceFlowState → Bool) (m : List (ℕ × DeviceFlowState))
      → AllEntries P m
      → AllEntries P (retain keep m)
  AllEntries-retain keep [] h = tt
  AllEntries-retain keep ((j, t) ∷ m) h = elim (Bool-cases (keep (j, t))) [
    | inl e ↦ rw e (h.0, AllEntries-retain keep m h.1)
    | inr e ↦ rw e (AllEntries-retain keep m h.1)
  ]

  pub AllEntries-change_first :
      (p : DeviceFlowState → Bool) (change : DeviceFlowState → DeviceFlowState)
      (m : List (ℕ × DeviceFlowState))
      → ((s : DeviceFlowState) → p s ≡ true → P s → P (change s))
      → AllEntries P m
      → AllEntries P (change_first p change m)
  AllEntries-change_first p change [] keeps h = tt
  AllEntries-change_first p change ((j, t) ∷ m) keeps h = elim (Bool-cases (p t)) [
    | inl e ↦ rw e (keeps t e h.0, h.1)
    | inr e ↦ rw e (h.0, AllEntries-change_first p change m keeps h.1)
  ]

pub AllEntries-map :
    (P Q : DeviceFlowState → Type 0) (m : List (ℕ × DeviceFlowState))
    → ((s : DeviceFlowState) → P s → Q s)
    → AllEntries P m
    → AllEntries Q m
AllEntries-map P Q [] f h = tt
AllEntries-map P Q ((j, t) ∷ m) f h = (f t h.0, AllEntries-map P Q m f h.1)

-- The store after an approval is the one before, or the first open entry of the code is completed.
pub complete_device_flow_cases :
    (crypto : Crypto) (app : AppState) (store : List (ℕ × DeviceFlowState)) (write_ok : Bool)
    (user_code user_id token_id row_id now : ℕ)
    → let app' =
        (complete_device_flow crypto app store write_ok user_code user_id token_id row_id now).0 in
      (app'.device_flow_store ≡ app.device_flow_store)
      ⊎ ((token : String) × (app'.device_flow_store
            ≡ some (change_first (is_open user_code) (completed user_id token) store)))
unfolding complete_device_flow
complete_device_flow_cases crypto app store write_ok user_code user_id token_id row_id now =
    elim (Bool-cases app.tokens.reachable) [
      | inr e ↦ inl (rw (e, complete_device_flow) refl)
      | inl e ↦ elim (Option-cases (find_user app.tokens user_id)) [
        | inl f ↦ inl (rw (f, e, complete_device_flow) refl)
        | inr (user, f) ↦
            elim (Option-cases (create_proxy_token crypto token_id user_id user.email 30 now)) [
              | inl t ↦ inl (rw (f, e, t, complete_device_flow) refl)
              | inr (token, t) ↦ elim (Bool-cases write_ok) [
                | inr w ↦ inl (rw (f, e, t, w, complete_device_flow) refl)
                | inl w ↦ elim (Option-cases (find_value (is_open user_code) store)) [
                  | inl v ↦ inl (rw (f, e, t, w, v, complete_device_flow) refl)
                  | inr (s, v) ↦ inr (token, rw (f, e, t, w, v, complete_device_flow) refl)
                ]
              ]
            ]
      ]
    ]
