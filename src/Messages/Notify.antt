-- ===== src/Messages/Notify.antt =====
-- src/stratum_client/messages.cpp: a job, as the pool writes it, is read back.
use btccpu.Prelude.{
  ℕ, get_elem?, ◌≤◌, List, [], ◌∷◌, ◌++◌, map, some, All, ◌≡◌, refl, arith, length, leb, le→leb,
  true,
}
use btccpu.Target.{FloatingPoint}
use btccpu.Json.{
  string, array, boolean, object, as_string, as_string-string, as_array-array, as_bool-boolean,
  Json, IsJson,
}
use btccpu.Messages.{NotifyMessage, notify}
use btccpu.Messages.Parse.{
  c_str, params_key, method_key, notify_method, find_params_array, json_string_at, parse_branches,
  parse_notify, parse_method_message, parse_object, parse_incoming_message,
}

-- A text without a zero.
abbrev pub IsText : List ℕ → Type 0
IsText s = All (λ c. 1 ≤ c) s

abbrev pub IsTexts : List (List ℕ) → Type 0
IsTexts texts = All IsText texts

c_str-IsText : (s : List ℕ) → IsText s → c_str s ≡ s
unfolding c_str
c_str-IsText [] h = refl
c_str-IsText (c ∷ s) (hc, hs) = let e = c_str-IsText s hs in ground arith

module _ (f : FloatingPoint) (json : Json f.Double) where
  abbrev text : List ℕ → json.Value
  text s = json.value (string s)

  -- The parameters of a job.
  abbrev pub notify_params : NotifyMessage → List json.Value
  notify_params msg =
      text msg.job_id
      ∷ text msg.prevhash
      ∷ text msg.coinb1
      ∷ text msg.coinb2
      ∷ json.value (array (map text msg.merkle_branch))
      ∷ text msg.version
      ∷ text msg.nbits
      ∷ text msg.ntime
      ∷ json.value (boolean msg.clean_jobs)
      ∷ []

  -- The texts of a job have no zero in them.
  pub record HasTexts (msg : NotifyMessage) : Type 0 where
    pub job_id : IsText msg.job_id
    pub prevhash : IsText msg.prevhash
    pub coinb1 : IsText msg.coinb1
    pub coinb2 : IsText msg.coinb2
    pub merkle_branch : IsTexts msg.merkle_branch
    pub version : IsText msg.version
    pub nbits : IsText msg.nbits
    pub ntime : IsText msg.ntime

  as_string-text : (s : List ℕ) → IsJson json → as_string json (text s) ≡ some s
  as_string-text s law = as_string-string json (text s) s (law.kind-value (string s))

  json_string_at-text :
      (a : List json.Value) (i : ℕ) (s : List ℕ)
      → IsJson json
      → get_elem? a i ≡ some (text s)
      → IsText s
      → json_string_at f json a i ≡ some s
  unfolding json_string_at
  json_string_at-text a i s law is_there h =
      rw (is_there, as_string-text s law, c_str-IsText s h) refl

  parse_branches-IsTexts :
      (branches : List (List ℕ))
      → IsJson json
      → IsTexts branches
      → parse_branches f json (map text branches) ≡ some branches
  unfolding parse_branches
  parse_branches-IsTexts [] law h = refl
  parse_branches-IsTexts (b ∷ branches) law (hb, hs) =
      rw
        (
          as_string-text b law,
          parse_branches-IsTexts branches law hs,
          c_str-IsText b hb,
          parse_branches,
        )
        refl

  parse_notify-notify_params :
      (obj : json.Object) (msg : NotifyMessage) (more : List json.Value)
      → IsJson json
      → HasTexts msg
      → json.find obj params_key ≡ some (json.value (array (notify_params msg ++ more)))
      → parse_notify f json obj ≡ some msg
  unfolding parse_notify find_params_array
  parse_notify-notify_params obj msg more law h has_params =
      let params = notify_params msg ++ more in
      let long : leb 9 (length params) ≡ true = le→leb 9 (length params) (omega arith) in
      rw
        (
          has_params,
          as_array-array json _ params (law.kind-value _),
          long,
          json_string_at-text params 0 msg.job_id law refl h.job_id,
          json_string_at-text params 1 msg.prevhash law refl h.prevhash,
          json_string_at-text params 2 msg.coinb1 law refl h.coinb1,
          json_string_at-text params 3 msg.coinb2 law refl h.coinb2,
          as_array-array json _ (map text msg.merkle_branch) (law.kind-value _),
          json_string_at-text params 5 msg.version law refl h.version,
          json_string_at-text params 6 msg.nbits law refl h.nbits,
          json_string_at-text params 7 msg.ntime law refl h.ntime,
          as_bool-boolean json _ msg.clean_jobs (law.kind-value _),
          parse_branches-IsTexts msg.merkle_branch law h.merkle_branch,
        )
        refl

  -- An object with the method mining.notify whose parameters are those of a job, and possibly more,
  -- is read as that job, if no text of the job has a zero in it.
  pub parse_incoming_message-notify_params :
      (line : List ℕ) (obj : json.Object) (msg : NotifyMessage) (more : List json.Value)
      → IsJson json
      → HasTexts msg
      → json.parse line ≡ some (json.value (object obj))
      → json.find obj method_key ≡ some (text notify_method)
      → json.find obj params_key ≡ some (json.value (array (notify_params msg ++ more)))
      → parse_incoming_message f json line ≡ some (notify msg)
  unfolding parse_incoming_message parse_object parse_method_message c_str
  parse_incoming_message-notify_params line obj msg more law h parsed has_method has_params =
      rw
        (
          parsed,
          law.kind-value,
          has_method,
          as_string-text notify_method law,
          parse_notify-notify_params obj msg more law h has_params,
        )
        refl
