-- ===== src/KvClient/Input.antt =====
-- The end of the input.
use load_tester_project.Base.{
  ℕ, zero, suc, false, List, [], ◌∷◌, Bytes, codes, ◌≡◌, ◌≢◌, refl, arith, All, str_eq, str_eq_iff,
  length, ◌<◌, ◌++◌, ap,
}
use load_tester_project.Base.Result.{ok, throw, out_of_fuel}
use load_tester_project.Clients.{Client}
use load_tester_project.KvClient.{next_line, parse_line, action_of, perform, run}

module _ (c : Client) where
  not_exit : (line : Bytes) → line ≢ codes "exit" → str_eq line (codes "exit") ≡ false
  not_exit line h = ground (arith, str_eq_iff line (codes "exit"))

  run_without_exit :
      (fuel : ℕ) (lines : List Bytes) (net : c.Net)
      → All (λ line. line ≢ codes "exit") lines
      → run c fuel lines net ≡ throw out_of_fuel
  unfolding run next_line
  run_without_exit zero lines net a = refl
  run_without_exit (suc fuel) [] net a =
      let again = run_without_exit fuel [] (perform c (action_of (parse_line [])) net).1 tt in
      ground (arith, not_exit [] (λ e. cc e), again)
  run_without_exit (suc fuel) (line ∷ lines) net a =
      let again = run_without_exit fuel lines (perform c (action_of (parse_line line)) net).1 a.1 in
      ground (arith, not_exit line a.0, again)

  run_with_exit :
      (fuel : ℕ) (lines after : List Bytes) (net : c.Net)
      → All (λ line. line ≢ codes "exit") lines
      → length lines < fuel
      → (texts : List Bytes) × (net' : c.Net) × (run c fuel (lines ++ codes "exit" ∷ after) net
          ≡ ok (texts, net'))
        × (length texts ≡ length lines)
  unfolding run next_line
  run_with_exit zero lines after net a h = absurd (omega arith)
  run_with_exit (suc fuel) [] after net a h = ([], net, unfold str_eq in refl, refl)
  run_with_exit (suc fuel) (line ∷ lines) after net a h =
      let said = perform c (action_of (parse_line line)) net in
      let (texts, net', e, n) = run_with_exit fuel lines after said.1 a.1 (omega arith) in
      (said.0 ∷ texts, net', ground (arith, not_exit line a.0, e), ap suc n)

  -- Lines that are all ended and none of which is `exit`, with more fuel than lines: if `exit`
  -- follows, the client returns and has printed one text for each line before it. If the input
  -- ends instead, the client is still in its loop when the fuel is used up, however much there
  -- is.
  pub run_exit :
      (lines after : List Bytes) (fuel : ℕ) (net : c.Net)
      → All (λ line. line ≢ codes "exit") lines
      → length lines < fuel
      → ((texts : List Bytes) × (net' : c.Net) × (run c fuel (lines ++ codes "exit" ∷ after) net
            ≡ ok (texts, net'))
          × (length texts ≡ length lines))
        × (run c fuel lines net ≡ throw out_of_fuel)
  run_exit lines after fuel net a h =
      (run_with_exit fuel lines after net a h, run_without_exit fuel lines net a)
