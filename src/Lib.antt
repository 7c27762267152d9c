-- ===== src/Lib.antt =====
-- Verification of the MellowLang toolchain (src/mellowlang; the paths below are relative to it).
--
-- A source passes through parsing/line_text.py, which rewrites aliases, strips comments, joins
-- open lines and splits at commas and assignments; lexer.py makes tokens of each expression; the
-- parser and compiler make an intermediate program of them, which the passes of
-- compiler/optimizations change and compiler/bytecode_backend.py turns into bytecode for the
-- interpreter of vm/interp. The agents of the same package keep a queue of jobs
-- (agents/scheduling), which is a part of its own.
--
-- Text and Prelude hold what the parts share: a text is the list of its code points. LineText
-- models parsing/line_text.py, one function per helper: comment_at, balance, commas and assign are
-- the loops of _strip_inline_comment, _balance_delta, _split_top_level_commas and
-- _split_top_level_assign, with the flags of the loop as arguments. Lexer models lexer.py:
-- next_token is one round of the loop of lex_expr, literal_body the loop inside a string. The main
-- loop runs on fuel, the length of the source and one, and each round that is not the last reads a
-- character, so that this is enough. The classes of characters that Python asks Unicode for are
-- the record Unicode, with the law that letters and digits are no space. Backend models ir.py and
-- compiler/bytecode_backend.py, with str and repr of the arguments as parameters. Dict holds the
-- dictionaries that it and the interpreter use. Interp models vm/interp, over programs of the
-- instructions for control, bindings and calls: State the fields of frame.py, Ops the handlers of
-- op_control.py, op_bindings.py and op_call.py, Run the loop of execute.py with _tick and
-- _handle_exception. The loop runs on fuel, the steps that the limit leaves and one, which is
-- enough since each round counts a step. Objects other than texts, truth values and skills, the
-- clock and the built-in functions are parameters (Setup). Range models range_core.py. Sm models
-- the token stream of sm_codec.py, with the UTF-8 of one character as a parameter (Utf8), which
-- has bytes for each code point that is no surrogate; the reader runs on fuel, one more than the
-- bytes, and each round reads a byte. Scheduler/Backoff models agents/scheduling/backoff.py and
-- Scheduler/Queue queue.py and drain.py. The state files are the record Files, and the clock, the
-- generator and the callback, which is handed the item itself and may change it, are the record
-- World. The float arithmetic of the jitter is a parameter, with the law of random.randint.
--
-- Ast is the syntax tree of ast_nodes, with Python's floats as a parameter. Lowering models
-- compiler/lowering: Machine is driver.py, where a piece of the lowering is a function from a
-- state to an exception or a state (Act) and a fresh name goes to what follows it; Tables and
-- Arguments are tables.py and syscalls.py, Expressions and Statements the files of these names.
-- lower_program gives the program that Backend.lower takes. The other modules of Lowering prove:
-- Known and Rules say which labels a state goes to, Emission what the backend does with them,
-- Assembly puts the lowering and the backend together; Effect says what the instructions take from
-- the operand stack and leave there, and Stack what an expression does to it.
--
-- Ledger models ledger_core.py: Values its values, with the decimals, str.upper and the hash as
-- the record Python, Book create and post, and Audit verify.
--
-- CompileCache models the cache of compiler/compiler.py, for one caller at a time: compile looks a
-- key up before it calls _compile_uncached, which is a parameter.
--
-- Parser is parsing/expressions.py, expression_atoms.py and expression_postfix.py. A parser takes
-- the tokens from the cursor on and returns a value with the tokens that are left, raises one of
-- the exceptions, or starves (Parser/Result). Each form is a definition that takes `_parse_bp` as
-- a parameter: Postfix the calls, members and subscripts, Atoms lambdas, lists and maps, Templates
-- the f-strings, Prefix the prefixes, and Expressions the operators and parse_expr, which ties the
-- knot. The fuel of a source is the number of its tokens and one more, since each nested call of
-- `_parse_bp` starts behind a token that was read; a loop has one round more than there are
-- tokens; f-strings nest at most as deep as the source is long, since a field is shorter than its
-- template and a template than its source (Lexer/Lengths). Bounded holds the rules for what a
-- parser leaves of the tokens, PostfixBounds, AtomBounds, TemplateBounds and Total apply them.
-- Operators spells operator expressions in tokens, Steps and RoundTrip read them back, and
-- TemplateScan is about the braces of templates. `int` and `float` of a text are a parameter
-- (Numbers).
--
-- Optimizer is the pass of compiler/optimizations/cleanup.py that removes unused labels; `none` is
-- the IndexError of a label or a jump without an argument. Labels says what it keeps.
--
-- Not modelled: the balance of an account of a ledger, the block parser, the rest of the
-- optimizer, the rest of the interpreter (arithmetic, collections, input and output, system calls,
-- imports and the machines that they run), the stores, the rest of the codecs, packages, the
-- draining of a queue by several threads, and everything that serves, prints or calls the
-- operating system.
pub mod Prelude
pub mod Text
pub mod LineText
pub mod Ast
pub mod Backend
pub mod CompileCache
pub mod Dict
pub mod Interp
pub mod Ledger
pub mod Lexer
pub mod Lowering
pub mod Range
pub mod Scheduler
pub mod Sm
pub mod Parser
pub mod Optimizer
