-- ===== src/MessageHandlers/Resent.antt =====
-- Outputs that a proxy sends again.
use claude_code_portal.Prelude.{
  ℕ, suc, ◌+◌, ◌<◌, ◌≤◌, ◌≡◌, refl, sym, ap, ◌∙◌, Bool, true, List, [], ◌∷◌, ◌++◌, map, Option,
  arith, length,
}
use mathlib.Core.List.{append_assoc, map-append}
use claude_code_portal.MessageHandlers.{Content, Backend, healthy}
use claude_code_portal.MessageHandlers.Dedup.{acked, taken-acked, duplicate}
use claude_code_portal.MessageHandlers.Stored.{
  texts, is_known, takes, takes-known, handle_each, handle_each-texts,
}

module _ {J F : Type 0} (json : Content J F) (accepts : ℕ → Bool) (now session tx : ℕ)
    (key : Option ℕ) where
  abbrev each : Backend J F → ℕ → List J → Backend J F
  each b n cs = handle_each json accepts now session tx key b n cs

  abbrev take_one : Backend J F → J → ℕ → Backend J F
  take_one b c n = takes json accepts now session tx key b c n

  take_one-acked :
      (b : Backend J F) (c : J) (n : ℕ)
      → acked b.manager session < n
      → acked (take_one b c n).manager session ≡ n
  take_one-acked b c n h =
      ground (arith, taken-acked json b accepts healthy now session tx key c n session, h)

  each-acked :
      (b : Backend J F) (n : ℕ) (c : J) (cs : List J)
      → acked b.manager session < n
      → acked (each b n (c ∷ cs)).manager session ≡ n + length cs
  unfolding handle_each
  each-acked b n c [] h = take_one-acked b c n h ∙ omega arith
  each-acked b n c (d ∷ ds) h =
      each-acked (take_one b c n) (suc n) d ds (omega (arith, take_one-acked b c n h)) ∙ omega arith

  each_old :
      (b : Backend J F) (n : ℕ) (cs : List J)
      → n + length cs ≤ suc (acked b.manager session)
      → each b n cs ≡ b
  unfolding handle_each
  each_old b n [] h = refl
  each_old b n (c ∷ cs) h =
      let same : take_one b c n ≡ b =
        ap (λ r. r.0) (duplicate json b accepts healthy now session tx key c n (omega arith)) in
      ap (λ b'. each b' (suc n) cs) same ∙ each_old b (suc n) cs (omega arith)

  each-append :
      (b : Backend J F) (n : ℕ) (cs ds : List J)
      → each b n (cs ++ ds) ≡ each (each b n cs) (n + length cs) ds
  unfolding handle_each
  each-append b n [] ds = ap (λ k. each b k ds) (omega arith)
  each-append b n (c ∷ cs) ds =
      each-append (take_one b c n) (suc n) cs ds
      ∙ ap (λ k. each (each (take_one b c n) (suc n) cs) k ds) (omega arith)

  each-known :
      (b : Backend J F) (n : ℕ) (cs : List J)
      → acked b.manager session < n
      → is_known (each b n cs).db session ≡ is_known b.db session
  unfolding handle_each
  each-known b n [] h = refl
  each-known b n (c ∷ cs) h =
      each-known (take_one b c n) (suc n) cs (omega (arith, take_one-acked b c n h))
      ∙ takes-known json accepts now session tx key b c n h

  -- Outputs that are sent twice from the same number, the second time with more behind them, are stored
  -- once each and in order.
  pub each_again :
      (b : Backend J F) (n : ℕ) (cs ds : List J)
      → acked b.manager session < n
      → is_known b.db session ≡ true
      → texts (each (each b n cs) n (cs ++ ds)) ≡ texts b ++ map json.to_string (cs ++ ds)
  unfolding handle_each
  each_again b n [] ds h known = handle_each-texts json accepts now session tx key b n ds h known
  each_again b n (c ∷ cs) ds h known =
      let b' : Backend J F = each b n (c ∷ cs) in
      let mark : acked b'.manager session ≡ n + length cs = each-acked b n c cs h in
      ap texts (
        each-append b' n (c ∷ cs) ds
        ∙ ap (λ b''. each b'' (n + length (c ∷ cs)) ds)
            (each_old b' n (c ∷ cs) (omega (arith, mark))))
      ∙ handle_each-texts json accepts now session tx key b' (n + length (c ∷ cs)) ds
          (omega (arith, mark)) (each-known b n (c ∷ cs) h ∙ known)
      ∙ ap (λ ts. ts ++ map json.to_string ds)
          (handle_each-texts json accepts now session tx key b n (c ∷ cs) h known)
      ∙ append_assoc (texts b) (map json.to_string (c ∷ cs)) (map json.to_string ds)
      ∙ ap (λ ts. texts b ++ ts) (sym (map-append json.to_string (c ∷ cs) ds))
