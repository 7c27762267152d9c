-- ===== src/Lowering/Tables.antt =====
-- src/mellowlang/compiler/lowering/tables.py: the bare names of system calls, and the names of their
-- arguments.
use mellow_programming_langu.Prelude.{List, [], ◌∷◌}
use mellow_programming_langu.Text.{Text, codes}

abbrev pub stdlib_calls : List (Text × Text)
stdlib_calls =
    (codes "print", codes "std.io.println")
    ∷ (codes "println", codes "std.io.println")
    ∷ (codes "write", codes "std.io.write")
    ∷ (codes "input", codes "std.io.input")
    ∷ (codes "readline", codes "std.io.input")
    ∷ (codes "read_line", codes "std.io.input")
    ∷ (codes "ask", codes "std.io.input")
    ∷ (codes "args", codes "std.sys.args")
    ∷ (codes "argv", codes "std.sys.args")
    ∷ (codes "cwd", codes "std.sys.cwd")
    ∷ (codes "sleep_ms", codes "std.sys.sleep_ms")
    ∷ (codes "exit", codes "std.sys.exit")
    ∷ (codes "gc_collect", codes "std.gc.collect")
    ∷ (codes "gc_stats", codes "std.gc.stats")
    ∷ (codes "spawn", codes "std.thread.spawn")
    ∷ (codes "yield", codes "std.thread.yield")
    ∷ (codes "channel", codes "std.chan.channel")
    ∷ (codes "send", codes "std.chan.send")
    ∷ (codes "recv", codes "std.chan.recv")
    ∷ (codes "len", codes "std.len")
    ∷ (codes "str", codes "std.type.to_str")
    ∷ (codes "type", codes "std.type.of")
    ∷ (codes "abs", codes "std.math.abs")
    ∷ (codes "floor", codes "std.math.floor")
    ∷ (codes "ceil", codes "std.math.ceil")
    ∷ (codes "sqrt", codes "std.math.sqrt")
    ∷ (codes "min", codes "std.math.min")
    ∷ (codes "max", codes "std.math.max")
    ∷ (codes "random", codes "std.random.range")
    ∷ (codes "vec", codes "std.math.vector")
    ∷ (codes "vector", codes "std.math.vector")
    ∷ (codes "vec2", codes "std.math.vec2")
    ∷ (codes "vec3", codes "std.math.vec3")
    ∷ (codes "vec_add", codes "std.math.vec_add")
    ∷ (codes "vec_sub", codes "std.math.vec_sub")
    ∷ (codes "vec_mul", codes "std.math.vec_mul")
    ∷ (codes "vec_dot", codes "std.math.vec_dot")
    ∷ (codes "vec_len", codes "std.math.vec_len")
    ∷ (codes "vec_norm", codes "std.math.vec_norm")
    ∷ (codes "vec_dist", codes "std.math.vec_dist")
    ∷ (codes "vec_dim", codes "std.math.vec_dim")
    ∷ (codes "vec_axis", codes "std.math.vec_axis")
    ∷ (codes "vec_lerp", codes "std.math.vec_lerp")
    ∷ (codes "vec_limit", codes "std.math.vec_limit")
    ∷ (codes "money", codes "std.money.of")
    ∷ (codes "money.of", codes "std.money.of")
    ∷ (codes "money_of", codes "std.money.of")
    ∷ (codes "money.add", codes "std.money.add")
    ∷ (codes "money_add", codes "std.money.add")
    ∷ (codes "money.sub", codes "std.money.sub")
    ∷ (codes "money_sub", codes "std.money.sub")
    ∷ (codes "money.mul", codes "std.money.mul")
    ∷ (codes "money_mul", codes "std.money.mul")
    ∷ (codes "money.div", codes "std.money.div")
    ∷ (codes "money_div", codes "std.money.div")
    ∷ (codes "money.quantize", codes "std.money.quantize")
    ∷ (codes "money_quantize", codes "std.money.quantize")
    ∷ (codes "money.format", codes "std.money.format")
    ∷ (codes "money_format", codes "std.money.format")
    ∷ (codes "money.amount", codes "std.money.amount")
    ∷ (codes "money_amount", codes "std.money.amount")
    ∷ (codes "money.currency", codes "std.money.currency")
    ∷ (codes "money_currency", codes "std.money.currency")
    ∷ (codes "money.eq", codes "std.money.eq")
    ∷ (codes "money_eq", codes "std.money.eq")
    ∷ (codes "money.lt", codes "std.money.lt")
    ∷ (codes "money_lt", codes "std.money.lt")
    ∷ (codes "money.gt", codes "std.money.gt")
    ∷ (codes "money_gt", codes "std.money.gt")
    ∷ (codes "data.open_jsonl", codes "std.data.open_jsonl")
    ∷ (codes "data_open_jsonl", codes "std.data.open_jsonl")
    ∷ (codes "data.open_csv", codes "std.data.open_csv")
    ∷ (codes "data_open_csv", codes "std.data.open_csv")
    ∷ (codes "data.next", codes "std.data.next")
    ∷ (codes "data_next", codes "std.data.next")
    ∷ (codes "data.close", codes "std.data.close")
    ∷ (codes "data_close", codes "std.data.close")
    ∷ (codes "data.cancel", codes "std.data.cancel")
    ∷ (codes "data_cancel", codes "std.data.cancel")
    ∷ (codes "data.info", codes "std.data.info")
    ∷ (codes "data_info", codes "std.data.info")
    ∷ (codes "data.project", codes "std.data.project")
    ∷ (codes "data_project", codes "std.data.project")
    ∷ (codes "data.where", codes "std.data.where")
    ∷ (codes "data_where", codes "std.data.where")
    ∷ (codes "data.sum", codes "std.data.sum")
    ∷ (codes "data_sum", codes "std.data.sum")
    ∷ (codes "data.sqlite_open", codes "std.data.sqlite_open")
    ∷ (codes "data_sqlite_open", codes "std.data.sqlite_open")
    ∷ (codes "data.sqlite_close", codes "std.data.sqlite_close")
    ∷ (codes "data_sqlite_close", codes "std.data.sqlite_close")
    ∷ (codes "data.sqlite_query", codes "std.data.sqlite_query")
    ∷ (codes "data_sqlite_query", codes "std.data.sqlite_query")
    ∷ (codes "data.sqlite_execute", codes "std.data.sqlite_execute")
    ∷ (codes "data_sqlite_execute", codes "std.data.sqlite_execute")
    ∷ (codes "ledger.create", codes "std.ledger.create")
    ∷ (codes "ledger_create", codes "std.ledger.create")
    ∷ (codes "ledger.post", codes "std.ledger.post")
    ∷ (codes "ledger_post", codes "std.ledger.post")
    ∷ (codes "ledger.verify", codes "std.ledger.verify")
    ∷ (codes "ledger_verify", codes "std.ledger.verify")
    ∷ (codes "ledger.balance", codes "std.ledger.balance")
    ∷ (codes "ledger_balance", codes "std.ledger.balance")
    ∷ (codes "ledger.entries", codes "std.ledger.entries")
    ∷ (codes "ledger_entries", codes "std.ledger.entries")
    ∷ (codes "storage_dir", codes "std.storage.dir")
    ∷ (codes "storage.dir", codes "std.storage.dir")
    ∷ (codes "storage_pwd", codes "std.storage.pwd")
    ∷ (codes "storage.pwd", codes "std.storage.pwd")
    ∷ (codes "storage_info", codes "std.storage.info")
    ∷ (codes "storage.info", codes "std.storage.info")
    ∷ (codes "save_data", codes "std.storage.save")
    ∷ (codes "storage.save", codes "std.storage.save")
    ∷ (codes "load_data", codes "std.storage.load")
    ∷ (codes "storage.load", codes "std.storage.load")
    ∷ (codes "mkdir", codes "std.storage.mkdir")
    ∷ (codes "storage.mkdir", codes "std.storage.mkdir")
    ∷ (codes "fs_read", codes "std.fs.read")
    ∷ (codes "fs.read", codes "std.fs.read")
    ∷ (codes "fs_write", codes "std.fs.write")
    ∷ (codes "fs.write", codes "std.fs.write")
    ∷ (codes "fs_append", codes "std.fs.append")
    ∷ (codes "fs.append", codes "std.fs.append")
    ∷ (codes "fs_exists", codes "std.fs.exists")
    ∷ (codes "fs.exists", codes "std.fs.exists")
    ∷ (codes "fs_delete", codes "std.fs.delete")
    ∷ (codes "fs.delete", codes "std.fs.delete")
    ∷ (codes "fs_mkdir", codes "std.fs.mkdir")
    ∷ (codes "fs.mkdir", codes "std.fs.mkdir")
    ∷ (codes "fs_pwd", codes "std.fs.pwd")
    ∷ (codes "fs.pwd", codes "std.fs.pwd")
    ∷ (codes "file_read", codes "std.file.read")
    ∷ (codes "file.read", codes "std.file.read")
    ∷ (codes "file_write", codes "std.file.write")
    ∷ (codes "file.write", codes "std.file.write")
    ∷ (codes "file_append", codes "std.file.append")
    ∷ (codes "file.append", codes "std.file.append")
    ∷ (codes "file_exists", codes "std.file.exists")
    ∷ (codes "file.exists", codes "std.file.exists")
    ∷ (codes "file_delete", codes "std.file.delete")
    ∷ (codes "file.delete", codes "std.file.delete")
    ∷ []

abbrev pub syscall_arguments : List (Text × List Text)
syscall_arguments =
    (codes "std.storage.dir", codes "path" ∷ [])
    ∷ (codes "std.storage.save", codes "key" ∷ codes "value" ∷ [])
    ∷ (codes "std.storage.load", codes "key" ∷ [])
    ∷ (codes "std.storage.mkdir", codes "path" ∷ [])
    ∷ (codes "std.fs.read", codes "path" ∷ codes "mode" ∷ [])
    ∷ (codes "std.fs.write", codes "path" ∷ codes "data" ∷ codes "mode" ∷ [])
    ∷ (codes "std.fs.append", codes "path" ∷ codes "data" ∷ codes "mode" ∷ [])
    ∷ (codes "std.fs.exists", codes "path" ∷ [])
    ∷ (codes "std.fs.delete", codes "path" ∷ [])
    ∷ (codes "std.fs.mkdir", codes "path" ∷ [])
    ∷ (codes "std.file.read", codes "path" ∷ codes "mode" ∷ [])
    ∷ (codes "std.file.write", codes "path" ∷ codes "data" ∷ codes "mode" ∷ [])
    ∷ (codes "std.file.append", codes "path" ∷ codes "data" ∷ codes "mode" ∷ [])
    ∷ (codes "std.file.exists", codes "path" ∷ [])
    ∷ (codes "std.file.delete", codes "path" ∷ [])
    ∷ []
