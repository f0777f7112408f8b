-- ===== src/Scheduler/Webhook.antt =====
-- The webhook endpoint (scheduler/webhook.go). A body is the list of its bytes, or `none` where it
-- cannot be read; `mac` is HMAC-SHA256 of a secret and a body, as bytes.
use daggle.Prelude.{
  ℕ, String, ◌≡◌, refl, ◌↔◌, ◌⊎◌, inl, inr, Bool, true, false, ◌++◌, Option, none, some, ◌==◌,
  eq_iff, if◌then◌else◌, Bool-cases, some_injective, subst, ap, sym,
}
use daggle.Go.Map.{get}
use daggle.Go.Text.{Text, codes, has_prefix, drop, text_eq}
use daggle.Go.Bytes.{first_bytes}
use daggle.Go.TextLaws.{text_eq_iff, has_prefix-append, prefix-drop}
use daggle.Go.Hex.{hex_decode}
use daggle.Dag.Model.{Assoc}
use daggle.Scheduler.Sync.{WebhookEntry}

abbrev pub Mac : Type 0
Mac = Text → Text → Text

abbrev pub equal_mac : Option Text → Text → Bool
equal_mac none expected = false
equal_mac (some bytes) expected = text_eq bytes expected

unfoldable pub validate_hmac : Mac → Text → Text → Text → Bool
validate_hmac mac body signature secret =
    if has_prefix signature (codes "sha256=")
    then equal_mac (hex_decode (drop 7 signature)) (mac secret body)
    else false

-- The status of the answer, and the workflow file of `triggerRun`.
pub data Response : Type 0 where
  not_found bad_request forbidden : Response
  accepted : String → Response

-- const maxWebhookBodySize = 1 << 20
abbrev pub max_webhook_body_size : ℕ
max_webhook_body_size = 1_048_576

-- io.LimitReader(r.Body, maxWebhookBodySize): what is read of a body
abbrev pub limited : Text → Text
limited body = first_bytes max_webhook_body_size body

abbrev pub read_body : Mac → WebhookEntry → Option Text → Text → Response
read_body mac e none signature = Response.bad_request
read_body mac e (some body) signature =
    if e.secret == ""
    then accepted e.webhook_path
    else if validate_hmac mac (limited body) signature (codes e.secret)
    then accepted e.webhook_path
    else forbidden

unfoldable pub handle_webhook : Mac → Assoc WebhookEntry → String → Option Text → Text → Response
unfolding validate_hmac
handle_webhook mac hooks dag_name body signature = elim (get hooks dag_name) [
  | none ↦ not_found
  | some e ↦ read_body mac e body signature
]

-- The signature is the hex text of the HMAC of a body.
abbrev pub IsSigned : Mac → Text → Text → Text → Type 0
IsSigned mac body signature secret =
    (hex : Text) × (signature ≡ codes "sha256=" ++ hex) × (hex_decode hex ≡ some (mac secret body))

equal_mac_iff :
    (o : Option Text) (expected : Text) → (equal_mac o expected ≡ true) ↔ (o ≡ some expected)
equal_mac_iff none expected = (λ h. cc, λ h. cc)
equal_mac_iff (some bytes) expected = (
  λ h. ap some ((text_eq_iff bytes expected).0 h),
  λ h. (text_eq_iff bytes expected).1 (some_injective h),
)

validate_hmac_iff :
    (mac : Mac) (body signature secret : Text)
    → (validate_hmac mac body signature secret ≡ true) ↔ IsSigned mac body signature secret
unfolding validate_hmac
validate_hmac_iff mac body signature secret = (
  λ h. elim (Bool-cases (has_prefix signature (codes "sha256="))) [
    | inr no_prefix ↦ cc (rw no_prefix at h)
    | inl prefix ↦ (
      drop 7 signature,
      prefix-drop signature (codes "sha256=") prefix,
      (equal_mac_iff (hex_decode (drop 7 signature)) (mac secret body)).0 (rw prefix at h),
    )
  ],
  λ s.
      rw (s.1, has_prefix-append (codes "sha256=") s.0)
        ((equal_mac_iff (hex_decode s.0) (mac secret body)).1 s.2),
)

accepted_injective : {p q : String} → accepted p ≡ accepted q → p ≡ q
accepted_injective h = cc

read_body-accepted_iff :
    (mac : Mac) (e : WebhookEntry) (body : Option Text) (signature : Text) (path : String)
    → (read_body mac e body signature ≡ accepted path) ↔ (
        (e.webhook_path ≡ path)
        × (b : Text) × (body ≡ some b)
        × ((e.secret ≡ "") ⊎ IsSigned mac (limited b) signature (codes e.secret)))
read_body-accepted_iff mac e none signature path = (λ h. cc, λ h. cc)
read_body-accepted_iff mac e (some b) signature path =
    let signed = validate_hmac_iff mac (limited b) signature (codes e.secret) in
    (
      λ h. elim (Bool-cases (e.secret == "")) [
        | inl open_hook ↦ (
          accepted_injective (rw open_hook at h),
          b,
          refl,
          inl ((eq_iff e.secret "").0 open_hook),
        )
        | inr closed ↦
            elim (Bool-cases (validate_hmac mac (limited b) signature (codes e.secret))) [
              | inl good ↦
                  (accepted_injective (rw (closed, good) at h), b, refl, inr (signed.0 good))
              | inr bad ↦ cc (rw (closed, bad) at h)
            ]
      ],
      λ (p, b', same, signature_ok). elim signature_ok [
        | inl no_secret ↦ rw ((eq_iff e.secret "").1 no_secret) (ap accepted p)
        | inr s ↦
            let good = signed.1 (
              subst (λ t. IsSigned mac (limited t) signature (codes e.secret))
                (sym (some_injective same)) s) in
            elim (Bool-cases (e.secret == "")) [
              | inl open_hook ↦ rw open_hook (ap accepted p)
              | inr closed ↦ rw (closed, good) (ap accepted p)
            ]
      ],
    )

handled :
    (found : Option WebhookEntry) (mac : Mac) (path : String) (body : Option Text)
    (signature : Text)
    → ((elim found [ none ↦ not_found | some e ↦ read_body mac e body signature ]) ≡ accepted path)
      ↔ ((e : WebhookEntry) × (found ≡ some e)
          × (e.webhook_path ≡ path)
          × (b : Text) × (body ≡ some b)
          × ((e.secret ≡ "") ⊎ IsSigned mac (limited b) signature (codes e.secret)))
handled none mac path body signature = (λ h. cc, λ h. cc)
handled (some e) mac path body signature =
    let r = read_body-accepted_iff mac e body signature path in
    (
      λ h. let (p, b, eq, ok) = r.0 h in (e, refl, p, b, eq, ok),
      λ (e', same, p, b, eq, ok). r.1 (
          subst
            (λ x.
              (x.webhook_path ≡ path)
              × (b : Text) × (body ≡ some b)
              × ((x.secret ≡ "") ⊎ IsSigned mac (limited b) signature (codes x.secret)))
            (sym (some_injective same)) (p, b, eq, ok)),
    )

-- A request to the webhook of a workflow triggers a run of the file at a path exactly when the
-- scheduler has a webhook of that workflow with this path, the body can be read, and the webhook
-- has no secret or the signature is sha256= with the hex text of the HMAC of the first MiB of the
-- body.
pub handle_webhook-accepted_iff :
    (mac : Mac) (hooks : Assoc WebhookEntry) (dag_name path : String) (body : Option Text)
    (signature : Text)
    → (handle_webhook mac hooks dag_name body signature ≡ accepted path) ↔ (
        (e : WebhookEntry) × (get hooks dag_name ≡ some e)
        × (e.webhook_path ≡ path)
        × (b : Text) × (body ≡ some b)
        × ((e.secret ≡ "") ⊎ IsSigned mac (first_bytes 1_048_576 b) signature (codes e.secret)))
unfolding handle_webhook
handle_webhook-accepted_iff mac hooks dag_name path body signature =
    handled (get hooks dag_name) mac path body signature
