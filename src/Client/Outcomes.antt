-- ===== src/Client/Outcomes.antt =====
-- What a call of the client ends with: internal/client/client.go.
use oastrix.Prelude.{
  ℕ, ◌≡◌, ◌⊎◌, Bool-cases, ◌↔◌, refl, Str, true, Option, none, some, List, [], ◌∷◌, ◌++◌, arith,
  Option-cases, inl, inr,
}
use oastrix.Client.{
  error_of, Request, HttpResponse, HttpClient, Called, done, Client, ClientOption, Codec,
  parse_error, received, executed, call, with_http_client, apply_options, new_client, server_error,
  request_failed, read_error_response,
}

module _ {W : Type 0} where
  apply_options-append :
      (opts more : List (ClientOption W)) (c : Client W)
      → apply_options (opts ++ more) c ≡ apply_options more (apply_options opts c)
  unfolding apply_options
  apply_options-append [] more c = refl
  apply_options-append (opt ∷ opts) more c = apply_options-append opts more (opt c)

  -- A client that is made with an HTTP client as its last option uses it, whatever the options
  -- before it do, and has the URL and the key that those leave.
  pub new_client-with_http_client :
      (standard h : HttpClient W) (url key : Str) (opts : List (ClientOption W))
      → new_client standard url key (opts ++ with_http_client h ∷ [])
        ≡ record (new_client standard url key opts) { http_client = h }
  unfolding new_client with_http_client apply_options
  new_client-with_http_client standard h url key opts =
      apply_options-append opts (with_http_client h ∷ [])
        (record { base_url = url; api_key = key; http_client = standard })

  module _ (json : Codec) (c : Client W) where
    -- What a call needs to succeed with a value.
    pub record Succeeds {A : Type 0} (req : Request) (decode : Option Str → Called A) (w : W)
        (a : A) : Type 0 where
      pub valid : json.valid_url req.url ≡ true
      pub response : HttpResponse
      pub replied : (c.http_client req w).0 ≡ some response
      pub okay : response.status_code ≡ 200
      pub decodes : decode response.body ≡ done a

    received-done :
        {A : Type 0} (decode : Option Str → Called A) (resp : HttpResponse) (a : A)
        → received json c decode resp ≡ done a
        → (resp.status_code ≡ 200) × (decode resp.body ≡ done a)
    received-done decode resp a h = ground arith

    executed-done :
        {A : Type 0} (decode : Option Str → Called A) (m : Option HttpResponse × W) (a : A)
        → (executed json c decode m).0 ≡ done a
        → (resp : HttpResponse) × (m.0 ≡ some resp) × (received json c decode resp ≡ done a)
    executed-done decode (none, w) a h = cc
    executed-done decode (some resp, w) a h = (resp, refl, h)

    executed-replied :
        {A : Type 0} (decode : Option Str → Called A) (m : Option HttpResponse × W)
        (resp : HttpResponse) (a : A)
        → m.0 ≡ some resp
        → received json c decode resp ≡ done a
        → (executed json c decode m).0 ≡ done a
    executed-replied decode (none, w) resp a h k = cc
    executed-replied decode (some r, w) resp a h k = ground (arith, h, k)

    call-Succeeds :
        {A : Type 0} (req : Request) (decode : Option Str → Called A) (w : W) (a : A)
        → (call json c req decode w).0 ≡ done a
        → Succeeds req decode w a
    unfolding call
    call-Succeeds req decode w a h = elim (Bool-cases (json.valid_url req.url)) [
      | inr bad ↦ cc (rw (bad, call) at h)
      | inl good ↦
          let (resp, replied, taken) =
            executed-done decode (c.http_client req w) a (rw (good, call) at h) in
          let (okay, decodes) = received-done decode resp a taken in
          record {
            valid = good;
            response = resp;
            replied = replied;
            okay = okay;
            decodes = decodes;
          }
    ]

    Succeeds-call :
        {A : Type 0} (req : Request) (decode : Option Str → Called A) (w : W) (a : A)
        → Succeeds req decode w a
        → (call json c req decode w).0 ≡ done a
    unfolding call
    Succeeds-call req decode w a h =
        rw (h.valid, call)
          (executed-replied decode (c.http_client req w) h.response a h.replied
            (ground (arith, h.okay, h.decodes)))

    -- A call succeeds with a value exactly when its URL is one, the server responds with status 200
    -- and the body decodes to that value.
    pub call-done_iff :
        {A : Type 0} (req : Request) (decode : Option Str → Called A) (w : W) (a : A)
        → ((call json c req decode w).0 ≡ done a) ↔ Succeeds req decode w a
    unfolding call
    call-done_iff req decode w a = (call-Succeeds req decode w a, Succeeds-call req decode w a)

    error_of-informative :
        (status : ℕ) (body : Str) (o : Option Str)
        → ((x : ℕ) × (text : Str) × (error_of status body o ≡ server_error (x ∷ text)))
          ⊎ (error_of status body o ≡ request_failed status body)
    error_of-informative status body none = inr refl
    error_of-informative status body (some []) = inr refl
    error_of-informative status body (some (x ∷ text)) = inl (x, text, refl)

    -- The error that a response other than a success becomes where its body can be read: a text of
    -- the server that is not empty, or else the status and the whole body; where it cannot be read,
    -- the status.
    pub parse_error-informative :
        (resp : HttpResponse)
        → ((x : ℕ) × (text : Str) × (parse_error json c resp ≡ server_error (x ∷ text)))
          ⊎ ((body : Str) × (resp.body ≡ some body)
              × (parse_error json c resp ≡ request_failed resp.status_code body))
          ⊎ (parse_error json c resp ≡ read_error_response resp.status_code)
    unfolding parse_error
    parse_error-informative resp = elim (Option-cases resp.body) [
      | inl unread ↦ inr (inr (rw (unread, parse_error) refl))
      | inr (body, read) ↦
          elim (error_of-informative resp.status_code body (json.unmarshal_error body)) [
            | inl (x, text, same) ↦ inl (x, text, rw (read, parse_error) same)
            | inr same ↦ inr (inl (body, read, rw (read, parse_error) same))
          ]
    ]
