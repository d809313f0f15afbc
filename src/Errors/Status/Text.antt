-- ===== src/Errors/Status/Text.antt =====
-- `http.StatusText` of Go's standard library: the standard statuses and their texts.
use garlic.Common.{
  ℕ, ◌≤◌, ◌<◌, String, refl, ◌≢◌, inl, inr, List, [], ◌∷◌, All, arith, ==_iff, ◌==◌, if◌then◌else◌,
  Bool-cases,
}

abbrev status_texts : List (ℕ × String)
status_texts =
    (100, "Continue")
    ∷ (101, "Switching Protocols")
    ∷ (102, "Processing")
    ∷ (103, "Early Hints")
    ∷ (200, "OK")
    ∷ (201, "Created")
    ∷ (202, "Accepted")
    ∷ (203, "Non-Authoritative Information")
    ∷ (204, "No Content")
    ∷ (205, "Reset Content")
    ∷ (206, "Partial Content")
    ∷ (207, "Multi-Status")
    ∷ (208, "Already Reported")
    ∷ (226, "IM Used")
    ∷ (300, "Multiple Choices")
    ∷ (301, "Moved Permanently")
    ∷ (302, "Found")
    ∷ (303, "See Other")
    ∷ (304, "Not Modified")
    ∷ (305, "Use Proxy")
    ∷ (307, "Temporary Redirect")
    ∷ (308, "Permanent Redirect")
    ∷ (400, "Bad Request")
    ∷ (401, "Unauthorized")
    ∷ (402, "Payment Required")
    ∷ (403, "Forbidden")
    ∷ (404, "Not Found")
    ∷ (405, "Method Not Allowed")
    ∷ (406, "Not Acceptable")
    ∷ (407, "Proxy Authentication Required")
    ∷ (408, "Request Timeout")
    ∷ (409, "Conflict")
    ∷ (410, "Gone")
    ∷ (411, "Length Required")
    ∷ (412, "Precondition Failed")
    ∷ (413, "Request Entity Too Large")
    ∷ (414, "Request URI Too Long")
    ∷ (415, "Unsupported Media Type")
    ∷ (416, "Requested Range Not Satisfiable")
    ∷ (417, "Expectation Failed")
    ∷ (418, "I'm a teapot")
    ∷ (421, "Misdirected Request")
    ∷ (422, "Unprocessable Entity")
    ∷ (423, "Locked")
    ∷ (424, "Failed Dependency")
    ∷ (425, "Too Early")
    ∷ (426, "Upgrade Required")
    ∷ (428, "Precondition Required")
    ∷ (429, "Too Many Requests")
    ∷ (431, "Request Header Fields Too Large")
    ∷ (451, "Unavailable For Legal Reasons")
    ∷ (500, "Internal Server Error")
    ∷ (501, "Not Implemented")
    ∷ (502, "Bad Gateway")
    ∷ (503, "Service Unavailable")
    ∷ (504, "Gateway Timeout")
    ∷ (505, "HTTP Version Not Supported")
    ∷ (506, "Variant Also Negotiates")
    ∷ (507, "Insufficient Storage")
    ∷ (508, "Loop Detected")
    ∷ (510, "Not Extended")
    ∷ (511, "Network Authentication Required")
    ∷ []

text_in : ℕ → List (ℕ × String) → String
text_in status [] = ""
text_in status ((s, text) ∷ more) = if s == status then text else text_in status more

unfoldable pub status_text : ℕ → String
unfolding text_in
status_text status = text_in status status_texts

text_in-range :
    (s : ℕ) (texts : List (ℕ × String))
    → All (λ p. (100 ≤ p.0) × (p.0 < 600)) texts
    → text_in s texts ≢ ""
    → (100 ≤ s) × (s < 600)
unfolding text_in
text_in-range s [] h ne = absurd (ne refl)
text_in-range s ((k, text) ∷ texts) (here, h) ne = elim (Bool-cases (k == s)) [
  | inl same ↦ (omega (arith, (==_iff k s).0 same), omega (arith, (==_iff k s).0 same))
  | inr other ↦ text_in-range s texts h (rw (other, text_in) at ne)
]

-- Every standard status lies in the range that `buildHTTPKinds` walks through.
pub status_text-range : (s : ℕ) → status_text s ≢ "" → (100 ≤ s) × (s < 600)
unfolding status_text
status_text-range s ne = text_in-range s status_texts (omega arith) ne
