-- ===== src/Client/Examples.antt =====
-- client_http.go: the theorem at a server that answers the second call, and tests.
use arduino_cloud_connector.Common.{ℕ, ◌≡◌, refl, ap, true, false, List, [], ◌∷◌, map, Any, String}
use arduino_cloud_connector.Provisioning.Retry.{
  or_else, trying, done, with_retry, round, retry_initial_backoff,
}
use arduino_cloud_connector.Certificate.{build_cert}
use arduino_cloud_connector.Certificate.RoundTrip.{
  response as body_of, params_of, reconstruct-response,
}
use arduino_cloud_connector.Certificate.Examples.{
  repeat, points, point, board, board-IsIssue, found,
}
use arduino_cloud_connector.Client.{
  Http, Reply, no_reply, response, Returned, success, failure, read_failed, rebuilt, csr_post, sent,
  closed, submit_csr,
}
use arduino_cloud_connector.Client.Retried.{
  Attempt, answer_of, csr_round, Carries, submit_csr-Carries,
}

abbrev plain : Http
plain = record { csr_json = λ csr. csr; complete_json = λ version. []; takes_url = λ url. true }

abbrev api : String
api = "https://api2.arduino.cc/provisioning"

abbrev answers : Reply → Attempt
answers reply = record {
  exchange = λ req. reply;
  took = 10;
  cancelled_call = false;
  cancelled_wait = false;
  late = 0;
}

abbrev good : Reply
good = response 200 record { bytes = body_of board; whole = true }

abbrev calls : List Attempt
calls = answers no_reply ∷ answers good ∷ []

answered :
    (submit_csr plain api points (λ req. good) "token" point).0
    ≡ success (repeat 36 b'a', build_cert (params_of board (repeat 64 7)))
unfolding submit_csr
answered =
    ap (rebuilt {A = List ℕ × List ℕ})
      (reconstruct-response points point (repeat 64 7) board board-IsIssue found)

loop_ends :
    with_retry 1000 0 retry_initial_backoff (map (csr_round plain api points "token" point) calls)
    ≡ done (repeat 36 b'a', build_cert (params_of board (repeat 64 7)))
unfolding with_retry round submit_csr
loop_ends =
    ap
      (λ (r : Returned (List ℕ × List ℕ)).
        or_else
          (round 1000 2000000020 record {
            took = 10;
            answer = answer_of r;
            cancelled_call = false;
            cancelled_wait = false;
            late = 0;
          })
          trying)
      answered

submit_csr-Carries_example :
    Any
      (Carries plain api points "token" point
        (repeat 36 b'a')
        (build_cert (params_of board (repeat 64 7))))
      calls
submit_csr-Carries_example =
    submit_csr-Carries plain api points 1000 0 "token" point (repeat 36 b'a')
      (build_cert (params_of board (repeat 64 7))) calls loop_ends

-- A body that breaks off is an error of submit_csr, whatever the status.
cut_short :
    submit_csr plain api points
      (λ req. response 500 record { bytes = []; whole = false })
      "token"
      point
    ≡ (failure read_failed, sent (csr_post plain api "token" point) ∷ closed ∷ [])
unfolding submit_csr
cut_short = refl
