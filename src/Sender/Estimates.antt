-- ===== src/Sender/Estimates.antt =====
-- The estimates of the round trip time: `_update_rtt_estimates`, and `_update_rto`, which nothing
-- calls (courier/send_engine.py).
use cs60_final_project.Common.{ℕ, ◌||◌, if◌then◌else◌}
use cs60_final_project.Sender.State.{Floats, SendState, py_max, py_min, ratio}

module _ {F : Type 0} (fl : Floats F) where
  -- The smoothed time and its variance, by the measured time.
  abbrev pub first_sample : F → SendState F → SendState F
  first_sample rtt st = record st { smoothed_rtt = rtt; rtt_variance = fl.div rtt (fl.of_nat 2) }

  abbrev pub next_sample : F → SendState F → SendState F
  next_sample rtt st = record st {
    rtt_variance =
        fl.add (fl.mul (ratio fl 3 4) st.rtt_variance)
          (fl.mul (ratio fl 1 4) (fl.abs (fl.sub st.smoothed_rtt rtt)));
    smoothed_rtt = fl.add (fl.mul (ratio fl 7 8) st.smoothed_rtt) (fl.mul (ratio fl 1 8) rtt);
  }

  -- smoothed_rtt + 4.0 * rtt_variance
  abbrev pub rto_of : SendState F → F
  rto_of st = fl.add st.smoothed_rtt (fl.mul (fl.of_nat 4) st.rtt_variance)

  -- _update_rtt_estimates(send_state, rtt); `max_rto_ms` is of the configuration.
  unfoldable pub update_rtt_estimates : ℕ → F → SendState F → SendState F
  update_rtt_estimates max_rto_ms rtt st =
      let is_first = fl.eq st.smoothed_rtt (fl.of_nat 0) || fl.eq st.smoothed_rtt (fl.of_nat 300) in
      let estimated = if is_first then first_sample rtt st else next_sample rtt st in
      record estimated {
        timeout_interval =
            py_max fl (fl.of_nat 100) (py_min fl (rto_of estimated) (fl.of_nat max_rto_ms));
      }

  abbrev first_measure : F → SendState F → SendState F
  first_measure measured_rtt st = record st {
    srtt = measured_rtt;
    rttvar = fl.div measured_rtt (fl.of_nat 2);
  }

  -- `alpha` is 0.125, `beta` is 0.25.
  abbrev next_measure : F → SendState F → SendState F
  next_measure measured_rtt st = record st {
    rttvar =
        fl.add (fl.mul (fl.sub (fl.of_nat 1) (ratio fl 1 4)) st.rttvar)
          (fl.mul (ratio fl 1 4) (fl.abs (fl.sub st.srtt measured_rtt)));
    srtt =
        fl.add (fl.mul (fl.sub (fl.of_nat 1) (ratio fl 1 8)) st.srtt)
          (fl.mul (ratio fl 1 8) measured_rtt);
  }

  -- _update_rto(state, measured_rtt)
  unfoldable pub update_rto : F → SendState F → SendState F
  update_rto measured_rtt st =
      let measured =
        if fl.eq st.srtt (fl.of_nat 0)
        then first_measure measured_rtt st
        else next_measure measured_rtt st in
      let raw = fl.add measured.srtt (fl.mul (fl.of_nat 4) measured.rttvar) in
      let bounded = py_max fl (fl.of_nat 100) (py_min fl raw (fl.of_nat 60000)) in
      record measured { rto = bounded; timeout_interval = bounded }
