-- ===== src/Core/RequestLimits/Gate.antt =====
-- What passes the gate, and what the upload behind it reads.
use allocation_key_generatio.Api.Upload.{upload_max_body_bytes}
use allocation_key_generatio.Base.Text.{
  text_eq, text_eq→≡, not_a_number, negative, number, Parsed, Text, codes,
}
use allocation_key_generatio.Base.{
  Bool-cases, inl, inr, ◌&&◌, ◌≢◌, ◌⊎◌, ap, false, if_split, lt→ltb, if◌then◌else◌, Option, ltb→lt,
  none, refl, some, true, ℕ, ◌<◌, ◌↔◌, ◌≡◌,
}
use allocation_key_generatio.Core.RequestLimits.{
  max_body_bytes, payload_too_large, responded, out_of_time, crashed, Downstream, Request, dispatch,
  is_over, max_body_for, number_over, within_timeout, replied, Reply,
}

text_ne : (a b : Text) → a ≢ b → text_eq a b ≡ false
text_ne a b h = elim (Bool-cases (text_eq a b)) [ inl e ↦ absurd (h (text_eq→≡ a b e)) | inr e ↦ e ]

other_route :
    (verb path : Text)
    → (verb ≢ codes "POST") ⊎ (path ≢ codes "/")
    → (if text_eq verb (codes "POST") && text_eq path (codes "/")
        then upload_max_body_bytes
        else max_body_bytes)
      ≡ 2097152
other_route verb path (inl h) = rw (text_ne verb (codes "POST") h) refl
other_route verb path (inr h) = elim (Bool-cases (text_eq verb (codes "POST"))) [
  | inl e ↦ rw (e, text_ne path (codes "/") h) refl
  | inr e ↦ rw e refl
]

module _ (upper : Text → Text) (parse_int : Text → Parsed) where
  -- The request declares a length, as a number above `limit`.
  abbrev pub Declares : (ℕ → Type 0) → Request → Type 0
  Declares P r =
      (text : Text) × (n : ℕ) × (r.content_length ≡ some text) × (parse_int text ≡ number n) × P n

  is_over-Declares :
      (limit : ℕ) (text : Text) (p : Parsed)
      → parse_int text ≡ p
      → number_over upper parse_int limit p ≡ true
      → (n : ℕ) × (parse_int text ≡ number n) × (limit < n)
  is_over-Declares limit text not_a_number e h = cc
  is_over-Declares limit text negative e h = cc
  is_over-Declares limit text (number n) e h = (n, e, ltb→lt limit n h)

  over_gate :
      (limit : ℕ) (r : Request) (header : Option Text)
      → r.content_length ≡ header
      → is_over upper parse_int limit header ≡ true
      → Declares (λ n. limit < n) r
  over_gate limit r none e h = cc
  over_gate limit r (some text) e h =
      let (n, parsed, above) = is_over-Declares limit text (parse_int text) refl h in
      (text, n, e, parsed, above)

  gate_over :
      (limit : ℕ) (r : Request)
      → Declares (λ n. limit < n) r
      → is_over upper parse_int limit r.content_length ≡ true
  gate_over limit r (text, n, e, parsed, above) = rw (e, parsed) (lt→ltb limit n above)

  not_refused :
      {R : Type 0} (d : Downstream R) → within_timeout upper parse_int d ≡ payload_too_large → ⊥
  not_refused (responded r) h = cc
  not_refused out_of_time h = cc
  not_refused crashed h = cc

  module _ {R A : Type 0} (call_next : Request → A → Downstream R × A) where
    -- Exactly the requests that declare a length above the limit of their route get a 413 of the
    -- gate, and the application does not see them: its state is as before. Every other request
    -- reaches the application, in the state that it was in, and is answered as the application
    -- answers it, or by 504 where that does not come in time. The limit is 50 MB for a POST on the
    -- path "/", and 2 MB for every other request.
    pub dispatch-Gate :
        (r : Request) (app : A)
        → ((dispatch upper parse_int call_next r app).0 ≡ payload_too_large
            ↔ Declares (λ n. max_body_for upper parse_int r < n) r)
          × (Declares (λ n. max_body_for upper parse_int r < n) r
              → dispatch upper parse_int call_next r app ≡ (payload_too_large, app))
          × (¬ Declares (λ n. max_body_for upper parse_int r < n) r
              → dispatch upper parse_int call_next r app
                ≡ replied upper parse_int (call_next r app))
          × (upper r.request_method ≡ codes "POST"
              → r.path ≡ codes "/"
              → max_body_for upper parse_int r ≡ 52428800)
          × ((upper r.request_method ≢ codes "POST") ⊎ (r.path ≢ codes "/")
              → max_body_for upper parse_int r ≡ 2097152)
    unfolding dispatch max_body_for text_eq
    dispatch-Gate r app =
        let limit = max_body_for upper parse_int r in
        let over = is_over upper parse_int limit r.content_length in
        let refuse : Declares (λ n. limit < n) r
            → dispatch upper parse_int call_next r app ≡ (payload_too_large, app) =
          λ d.
            ap
              (λ b.
                if b then (payload_too_large, app) else replied upper parse_int (call_next r app))
              (gate_over limit r d) in
        (
          (
            if_split (λ (o : Reply R × A). o.0 ≡ payload_too_large → Declares (λ n. limit < n) r)
                over (λ e h. over_gate limit r r.content_length refl e)
                (λ e h. absurd (not_refused (call_next r app).0 h)),
            λ d. ap (λ o. o.0) (refuse d),
          ),
          refuse,
          λ small.
              if_split (λ o. o ≡ replied upper parse_int (call_next r app)) over
                (λ e. absurd (small (over_gate limit r r.content_length refl e))) (λ e. refl),
          λ post slash. rw (post, slash) refl,
          other_route (upper r.request_method) r.path,
        )
