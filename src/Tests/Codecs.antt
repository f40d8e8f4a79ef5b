-- ===== src/Tests/Codecs.antt =====
-- Codecs that are faithful: of the answers with nothing but a reference, and of the responses.
use crossbridge.Prelude.{zero, suc, List, [], ◌∷◌, ◌≡◌, arith, Result, ok, err}
use crossbridge.Prelude.Text.{Text, codes, text_has_eq}
use crossbridge.Prelude.Decimal.{pos, negsuc, int_has_eq}
use crossbridge.Protocol.{
  Attachment, AnswerComment, ClientRequest, submit, answer, ServerResponse, done, failed,
}
use crossbridge.Protocol.Framing.{Bytes, Codec}
use crossbridge.Protocol.Framing.RoundTrip.{IsFaithful}

unfoldable pub encode_answer : Text → List AnswerComment → List Attachment → Result Text Bytes
encode_answer u [] [] = ok u
encode_answer u [] (a ∷ as') = err (codes "not here")
encode_answer u (c ∷ cs) as' = err (codes "not here")

unfoldable pub encode_request : ClientRequest → Result Text Bytes
encode_request (submit s) = err (codes "not here")
encode_request (answer a) = encode_answer a.source_uuid a.comments a.attachments

abbrev pub requests : Codec ClientRequest
requests = record {
  to_stdvec = encode_request;
  from_bytes = λ b. ok (answer (record { source_uuid = b; comments = []; attachments = [] }));
}

faithful_answer :
    (u : Text) (cs : List AnswerComment) (as' : List Attachment) (payload : Bytes)
    → encode_answer u cs as' ≡ ok payload
    → requests.from_bytes payload
      ≡ ok (answer (record { source_uuid = u; comments = cs; attachments = as' }))
unfolding encode_answer
faithful_answer u [] [] payload h = ground arith
faithful_answer u [] (a ∷ as') payload h = ground arith
faithful_answer u (c ∷ cs) as' payload h = ground arith

faithful_request :
    (msg : ClientRequest) (payload : Bytes)
    → encode_request msg ≡ ok payload
    → requests.from_bytes payload ≡ ok msg
unfolding encode_request
faithful_request (submit s) payload h = ground arith
faithful_request (answer a) payload h =
    faithful_answer a.source_uuid a.comments a.attachments payload h

pub requests-IsFaithful : IsFaithful requests
requests-IsFaithful = record { decodes = faithful_request }

unfoldable pub encode_response : ServerResponse → Result Text Bytes
encode_response (done (pos n)) = ok (1 ∷ n ∷ [])
encode_response (done (negsuc n)) = ok (2 ∷ n ∷ [])
encode_response (failed m) = ok (0 ∷ m)

unfoldable pub decode_response : Bytes → Result Text ServerResponse
decode_response (suc zero ∷ n ∷ []) = ok (done (pos n))
decode_response (suc (suc zero) ∷ n ∷ []) = ok (done (negsuc n))
decode_response (zero ∷ m) = ok (failed m)
decode_response _ = err (codes "not a response")

abbrev pub responses : Codec ServerResponse
responses = record { to_stdvec = encode_response; from_bytes = decode_response }

faithful_response :
    (msg : ServerResponse) (payload : Bytes)
    → encode_response msg ≡ ok payload
    → decode_response payload ≡ ok msg
unfolding encode_response decode_response
faithful_response (done (pos n)) payload h = ground arith
faithful_response (done (negsuc n)) payload h = ground arith
faithful_response (failed m) payload h = ground arith

pub responses-IsFaithful : IsFaithful responses
responses-IsFaithful = record { decodes = faithful_response }
