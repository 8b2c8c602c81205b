-- ===== src/Cmd/Client/Laws.antt =====
-- What the commands of cmd/oastrix that use the API client do: list.go, delete.go, generate.go,
-- interactions.go.
use oastrix.Prelude.{
  ◌∙◌, ap, arith, ◌↔◌, ℕ, ◌≡◌, refl, Str, Bool, true, false, Option, none, some, [], ◌∷◌,
}
use oastrix.Client.{
  HttpClient, Client, Called, done, failed, Codec, create_token, get_interactions, list_tokens,
  delete_token,
}
use oastrix.Cmd.Client.{
  ClientConfig, CommandError, api_url_required, api_key_required, Configured, usable, unusable,
  Indent, new_config_client, print_ended, print_result, after_call, with_client, run_list,
  run_generate, run_interactions, run_delete, exit_code,
}

exit_code-none : (o : Option CommandError) → exit_code o ≡ 0 → o ≡ none
unfolding exit_code
exit_code-none none h = refl
exit_code-none (some e) h = cc

exit_code-success : exit_code none ≡ 0
unfolding exit_code
exit_code-success = refl

module _ {W : Type 0} (fprintln : Str → W → Bool × W) where
  -- What a command has done when it ends with no error.
  pub record Printed {A : Type 0} (configured : Configured W) (call : Client W → W → Called A × W)
      (marshal : A → Option Str) (w after : W) : Type 0 where
    pub client : Client W
    pub made : configured ≡ usable client
    pub value : A
    pub called : (call client w).0 ≡ done value
    pub text : Str
    pub encoded : marshal value ≡ some text
    pub written : fprintln text (call client w).1 ≡ (true, after)

  print_ended-none : (m : Bool × W) → (print_ended m).0 ≡ none → m ≡ (true, (print_ended m).1)
  print_ended-none (true, w) h = refl
  print_ended-none (false, w) h = cc

  print_result-none :
      (o : Option Str) (w : W)
      → (print_result fprintln o w).0 ≡ none
      → (text : Str) × (o ≡ some text) × (fprintln text w ≡ (true, (print_result fprintln o w).1))
  print_result-none none w h = cc
  print_result-none (some text) w h = (text, refl, print_ended-none (fprintln text w) h)

  after_call-none :
      {A : Type 0} (marshal : A → Option Str) (m : Called A × W)
      → (after_call fprintln marshal m).0 ≡ none
      → (a : A) × (m.0 ≡ done a)
        × ((text : Str) × (marshal a ≡ some text)
            × (fprintln text m.1 ≡ (true, (after_call fprintln marshal m).1)))
  after_call-none marshal (failed e, w) h = cc
  after_call-none marshal (done a, w) h = (a, refl, print_result-none (marshal a) w h)

  with_client-Printed :
      {A : Type 0} (configured : Configured W) (call : Client W → W → Called A × W)
      (marshal : A → Option Str) (w : W)
      → (with_client fprintln configured call marshal w).0 ≡ none
      → Printed configured call marshal w (with_client fprintln configured call marshal w).1
  with_client-Printed (unusable e) call marshal w h = cc
  with_client-Printed (usable c) call marshal w h =
      let (a, called, (text, encoded, written)) = after_call-none marshal (call c w) h in
      record {
        client = c;
        made = refl;
        value = a;
        called = called;
        text = text;
        encoded = encoded;
        written = written;
      }

  after_call-done :
      {A : Type 0} (marshal : A → Option Str) (m : Called A × W) (a : A) (text : Str) (after : W)
      → m.0 ≡ done a
      → marshal a ≡ some text
      → fprintln text m.1 ≡ (true, after)
      → (after_call fprintln marshal m).0 ≡ none
  after_call-done marshal (failed e, w) a text after h encoded written = cc
  after_call-done marshal (done b, w) a text after h encoded written = ground arith

  with_client-none :
      {A : Type 0} (configured : Configured W) (call : Client W → W → Called A × W)
      (marshal : A → Option Str) (w after : W)
      → Printed configured call marshal w after
      → (with_client fprintln configured call marshal w).0 ≡ none
  with_client-none configured call marshal w after p =
      rw (p.made) (
        after_call-done marshal (call p.client w) p.value p.text after p.called p.encoded p.written)

  exit_code-with_client :
      {A : Type 0} (configured : Configured W) (call : Client W → W → Called A × W)
      (marshal : A → Option Str) (w : W)
      → let run = with_client fprintln configured call marshal w in
        (exit_code run.0 ≡ 0) ↔ Printed configured call marshal w run.1
  exit_code-with_client configured call marshal w =
      let run = with_client fprintln configured call marshal w in
      (
        λ h. with_client-Printed configured call marshal w (exit_code-none run.0 h),
        λ p. ap exit_code (with_client-none configured call marshal w run.1 p) ∙ exit_code-success,
      )

module _ {W : Type 0} (standard : HttpClient W) (json : Codec) (indent : Indent)
    (fprintln : Str → W → Bool × W) where
  -- A command of the client exits with code 0 exactly if the client could be made, its call of the
  -- server succeeded, and the encoding of what the call gave was printed, as the last thing that the
  -- command did; `delete` prints the token that it was given.
  pub exit_code_iff :
      (cfg : ClientConfig) (arg : Str) (w : W)
      → ((exit_code (run_list standard json indent fprintln cfg w).0 ≡ 0)
          ↔ Printed fprintln
              (new_config_client standard cfg)
              (list_tokens json)
              indent.listed
              w
              (run_list standard json indent fprintln cfg w).1)
        × ((exit_code (run_generate standard json indent fprintln cfg arg w).0 ≡ 0)
            ↔ Printed fprintln
                (new_config_client standard cfg)
                (λ c. create_token json c arg)
                indent.created
                w
                (run_generate standard json indent fprintln cfg arg w).1)
        × ((exit_code (run_interactions standard json indent fprintln cfg arg w).0 ≡ 0)
            ↔ Printed fprintln
                (new_config_client standard cfg)
                (λ c. get_interactions json c arg)
                indent.interactions
                w
                (run_interactions standard json indent fprintln cfg arg w).1)
        × ((exit_code (run_delete standard json indent fprintln cfg arg w).0 ≡ 0)
            ↔ Printed fprintln
                (new_config_client standard cfg)
                (λ c. delete_token json c arg)
                (λ u. indent.deletion (record { token = arg; deleted = true }))
                w
                (run_delete standard json indent fprintln cfg arg w).1)
  unfolding run_list run_generate run_interactions run_delete
  exit_code_iff cfg arg w = (
    exit_code-with_client fprintln _ _ _ w,
    exit_code-with_client fprintln _ _ _ w,
    exit_code-with_client fprintln _ _ _ w,
    exit_code-with_client fprintln _ _ _ w,
  )

  -- Without a URL, or with a URL and without a key, no command sends or prints anything, and the
  -- error names what is missing, the URL first.
  pub commands_unconfigured :
      (key arg : Str) (x : ℕ) (url : Str) (w : W)
      → let no_url : ClientConfig = record { api_key = key; api_url = [] } in
        let no_key : ClientConfig = record { api_key = []; api_url = x ∷ url } in
        (run_list standard json indent fprintln no_url w ≡ (some api_url_required, w))
        × (run_generate standard json indent fprintln no_url arg w ≡ (some api_url_required, w))
        × (run_interactions standard json indent fprintln no_url arg w ≡ (some api_url_required, w))
        × (run_delete standard json indent fprintln no_url arg w ≡ (some api_url_required, w))
        × (run_list standard json indent fprintln no_key w ≡ (some api_key_required, w))
        × (run_generate standard json indent fprintln no_key arg w ≡ (some api_key_required, w))
        × (run_interactions standard json indent fprintln no_key arg w ≡ (some api_key_required, w))
        × (run_delete standard json indent fprintln no_key arg w ≡ (some api_key_required, w))
  unfolding run_list run_generate run_interactions run_delete new_config_client
  commands_unconfigured key arg x url w = (refl, refl, refl, refl, refl, refl, refl, refl)
